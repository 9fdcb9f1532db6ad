-- ===== src/Key.antt =====
-- Key codes (`evdev::KeyCode`). The numbers are those of the kernel's input-event-codes.h; a code
-- is a u16, and two keys are the same exactly if their codes are.
use ahk_wayland.Prelude.{ℕ, ◌+◌, Bool, List, [], ◌∷◌, contains}

abbrev pub Key : Type 0
Key = ℕ

abbrev pub key_reserved : Key
key_reserved = 0

abbrev pub key_esc : Key
key_esc = 1

abbrev pub key_minus : Key
key_minus = 12

abbrev pub key_equal : Key
key_equal = 13

abbrev pub key_backspace : Key
key_backspace = 14

abbrev pub key_tab : Key
key_tab = 15

abbrev pub key_leftbrace : Key
key_leftbrace = 26

abbrev pub key_rightbrace : Key
key_rightbrace = 27

abbrev pub key_enter : Key
key_enter = 28

abbrev pub key_leftctrl : Key
key_leftctrl = 29

abbrev pub key_semicolon : Key
key_semicolon = 39

abbrev pub key_apostrophe : Key
key_apostrophe = 40

abbrev pub key_grave : Key
key_grave = 41

abbrev pub key_leftshift : Key
key_leftshift = 42

abbrev pub key_backslash : Key
key_backslash = 43

abbrev pub key_comma : Key
key_comma = 51

abbrev pub key_dot : Key
key_dot = 52

abbrev pub key_slash : Key
key_slash = 53

abbrev pub key_rightshift : Key
key_rightshift = 54

abbrev pub key_leftalt : Key
key_leftalt = 56

abbrev pub key_space : Key
key_space = 57

abbrev pub key_capslock : Key
key_capslock = 58

abbrev pub key_rightctrl : Key
key_rightctrl = 97

abbrev pub key_rightalt : Key
key_rightalt = 100

abbrev pub key_home : Key
key_home = 102

abbrev pub key_up : Key
key_up = 103

abbrev pub key_pageup : Key
key_pageup = 104

abbrev pub key_left : Key
key_left = 105

abbrev pub key_right : Key
key_right = 106

abbrev pub key_end : Key
key_end = 107

abbrev pub key_down : Key
key_down = 108

abbrev pub key_pagedown : Key
key_pagedown = 109

abbrev pub key_insert : Key
key_insert = 110

abbrev pub key_delete : Key
key_delete = 111

abbrev pub key_mute : Key
key_mute = 113

abbrev pub key_volumedown : Key
key_volumedown = 114

abbrev pub key_volumeup : Key
key_volumeup = 115

abbrev pub key_leftmeta : Key
key_leftmeta = 125

abbrev pub key_rightmeta : Key
key_rightmeta = 126

abbrev pub key_nextsong : Key
key_nextsong = 163

abbrev pub key_playpause : Key
key_playpause = 164

abbrev pub key_previoussong : Key
key_previoussong = 165

abbrev pub key_stopcd : Key
key_stopcd = 166

abbrev pub key_1 : Key
key_1 = 2

abbrev pub key_2 : Key
key_2 = 3

abbrev pub key_3 : Key
key_3 = 4

abbrev pub key_4 : Key
key_4 = 5

abbrev pub key_5 : Key
key_5 = 6

abbrev pub key_6 : Key
key_6 = 7

abbrev pub key_7 : Key
key_7 = 8

abbrev pub key_8 : Key
key_8 = 9

abbrev pub key_9 : Key
key_9 = 10

abbrev pub key_0 : Key
key_0 = 11

abbrev pub key_q : Key
key_q = 16

abbrev pub key_w : Key
key_w = 17

abbrev pub key_e : Key
key_e = 18

abbrev pub key_r : Key
key_r = 19

abbrev pub key_t : Key
key_t = 20

abbrev pub key_y : Key
key_y = 21

abbrev pub key_u : Key
key_u = 22

abbrev pub key_i : Key
key_i = 23

abbrev pub key_o : Key
key_o = 24

abbrev pub key_p : Key
key_p = 25

abbrev pub key_a : Key
key_a = 30

abbrev pub key_s : Key
key_s = 31

abbrev pub key_d : Key
key_d = 32

abbrev pub key_f : Key
key_f = 33

abbrev pub key_g : Key
key_g = 34

abbrev pub key_h : Key
key_h = 35

abbrev pub key_j : Key
key_j = 36

abbrev pub key_k : Key
key_k = 37

abbrev pub key_l : Key
key_l = 38

abbrev pub key_z : Key
key_z = 44

abbrev pub key_x : Key
key_x = 45

abbrev pub key_c : Key
key_c = 46

abbrev pub key_v : Key
key_v = 47

abbrev pub key_b : Key
key_b = 48

abbrev pub key_n : Key
key_n = 49

abbrev pub key_m : Key
key_m = 50

abbrev pub key_f1 : Key
key_f1 = 59

abbrev pub key_f2 : Key
key_f2 = 60

abbrev pub key_f3 : Key
key_f3 = 61

abbrev pub key_f4 : Key
key_f4 = 62

abbrev pub key_f5 : Key
key_f5 = 63

abbrev pub key_f6 : Key
key_f6 = 64

abbrev pub key_f7 : Key
key_f7 = 65

abbrev pub key_f8 : Key
key_f8 = 66

abbrev pub key_f9 : Key
key_f9 = 67

abbrev pub key_f10 : Key
key_f10 = 68

abbrev pub key_f11 : Key
key_f11 = 87

abbrev pub key_f12 : Key
key_f12 = 88

abbrev pub key_f13 : Key
key_f13 = 183

abbrev pub key_f14 : Key
key_f14 = 184

abbrev pub key_f15 : Key
key_f15 = 185

abbrev pub key_f16 : Key
key_f16 = 186

abbrev pub key_f17 : Key
key_f17 = 187

abbrev pub key_f18 : Key
key_f18 = 188

abbrev pub key_f19 : Key
key_f19 = 189

abbrev pub key_f20 : Key
key_f20 = 190

abbrev pub key_f21 : Key
key_f21 = 191

abbrev pub key_f22 : Key
key_f22 = 192

abbrev pub key_f23 : Key
key_f23 = 193

abbrev pub key_f24 : Key
key_f24 = 194

-- event_handler.rs: the first code of the disguised relative events.
abbrev pub disguised_event_offsetter : Key
disguised_event_offsetter = 59974

abbrev pub key_match_any : Key
key_match_any = disguised_event_offsetter + 26

-- event_handler.rs: MODIFIER_KEYS.
abbrev pub modifier_keys : List Key
modifier_keys =
    key_leftshift ∷ key_rightshift ∷ key_leftctrl ∷ key_rightctrl ∷ key_leftalt ∷ key_rightalt
    ∷ key_leftmeta ∷ key_rightmeta ∷ []

unfoldable pub is_modifier_key : Key → Bool
is_modifier_key = contains modifier_keys
