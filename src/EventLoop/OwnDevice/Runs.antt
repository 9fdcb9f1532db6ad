-- ===== src/EventLoop/OwnDevice/Runs.antt =====
-- main.rs: the devices that are read, after rounds and reloads.
use ahk_wayland.Prelude.{
  ◌≡◌, refl, sym, ◌∙◌, Bool, true, false, Option, none, some, List, [], ◌∷◌, Text, if◌then◌else◌,
}
use mathlib.Core.Path.{subst}
use ahk_wayland.Config.Types.{Config}
use ahk_wayland.InputDevice.Devices.{DeviceFiles}
use ahk_wayland.InputDevice.Selection.{DeviceMap, get_input_devices}
use ahk_wayland.InputDevice.Selected.{own_name, AllChosen}
use ahk_wayland.InputDevice.Changes.{
  get_input_devices-own_name, Selected, get_input_devices-Selected,
}
use ahk_wayland.Handler.State.{EventHandler, Outcome, ok, ◌>>=◌}
use ahk_wayland.Dispatcher.{ActionDispatcher}
use ahk_wayland.EventLoop.Rounds.{
  Setup, Loop, Round, AfterRound, next_round, reload_devices, reload_config, handle_timer,
  handle_devices, watch_devices, watch_config,
}
use ahk_wayland.EventLoop.Runs.{
  after_devices, run_round, Reload, reselected, reload, run_rounds, reconfigured, start_loop,
  output_name,
}
use ahk_wayland.EventLoop.OwnDevice.{
  Ensures, Ensures-bind, IsOurs, handle_timer-IsOurs, handle_devices-IsOurs, watch_devices-IsOurs,
  watch_config-IsOurs,
}

module _ (setup : Setup) (name : Text) where
  abbrev Ours : Loop → Type 0
  Ours = IsOurs setup name

  abbrev IsOursAfter : {A : Type 0} → (A × Loop) → Type 0
  IsOursAfter r = Ours r.1

  after_devices-IsOurs :
      (round : Round) (b : Bool) (l : Loop)
      → Ours l
      → Ensures (IsOursAfter {A = AfterRound}) (after_devices setup round (b, l))
  after_devices-IsOurs round false l h = h
  after_devices-IsOurs round true l h =
      let l1 = watch_devices setup setup.watch_devices round.device_events round l in
      Ensures-bind (IsOursAfter {A = Bool}) (IsOursAfter {A = AfterRound})
        (watch_config setup setup.watch_config round.config_events round l1)
        (λ r. ok (if r.0 then next_round else reload_config, r.1))
        (watch_config-IsOurs setup name setup.watch_config round.config_events round l1
          (watch_devices-IsOurs setup name setup.watch_devices round.device_events round l h))
        (λ r k. k)

  run_round-IsOurs :
      (round : Round) (l : Loop)
      → Ours l
      → Ensures (IsOursAfter {A = AfterRound}) (run_round setup round l)
  unfolding run_round
  run_round-IsOurs round l h =
      Ensures-bind Ours (IsOursAfter {A = AfterRound}) (handle_timer setup round.timer l)
        (λ l1. handle_devices setup round.readable l1 >>= after_devices setup round)
        (handle_timer-IsOurs setup name round.timer l h)
        (λ l1 h1.
          Ensures-bind (IsOursAfter {A = Bool}) (IsOursAfter {A = AfterRound})
            (handle_devices setup round.readable l1) (after_devices setup round)
            (handle_devices-IsOurs setup name round.readable l1 h1)
            (λ r k. after_devices-IsOurs round r.0 r.1 k))

  reselected-IsOurs :
      (l : Loop) (r : Option DeviceMap × Option Text)
      → own_name setup.process r.1 ≡ name
      → Selected name setup.filters r.0
      → Ensures Ours (reselected l r)
  reselected-IsOurs l (none, kept) e h = tt
  reselected-IsOurs l (some m, kept) e h = (e, h)

  selected-IsOurs :
      (files : DeviceFiles) (kept : Option Text) (l : Loop)
      → own_name setup.process kept ≡ name
      → Ensures Ours (
          reselected l
            (get_input_devices files setup.process setup.filters setup.watch_devices kept))
  selected-IsOurs files kept l e =
      reselected-IsOurs l
        (get_input_devices files setup.process setup.filters setup.watch_devices kept)
        (get_input_devices-own_name files setup.process setup.filters setup.watch_devices kept ∙ e)
        (subst
          (λ (n : Text).
            Selected n setup.filters
              (get_input_devices files setup.process setup.filters setup.watch_devices kept).0)
          e (get_input_devices-Selected files setup.process setup.filters setup.watch_devices kept))

  reconfigured-IsOurs : (l : Loop) (o : Option Config) → Ours l → Ours (reconfigured l o)
  reconfigured-IsOurs l none h = h
  reconfigured-IsOurs l (some config) h = h

  reload-IsOurs :
      (r : Reload) (next : AfterRound) (l : Loop) → Ours l → Ensures Ours (reload setup r (next, l))
  unfolding reload
  reload-IsOurs r next_round l h = h
  reload-IsOurs r reload_devices l h = selected-IsOurs r.files l.device_name l h.0
  reload-IsOurs r reload_config l h = reconfigured-IsOurs l r.loaded h

  run_rounds-IsOurs :
      (rounds : List (Round × Reload)) (l : Loop)
      → Ours l
      → Ensures Ours (run_rounds setup rounds l)
  unfolding run_rounds
  run_rounds-IsOurs [] l h = h
  run_rounds-IsOurs ((round, r) ∷ more) l h =
      Ensures-bind (IsOursAfter {A = AfterRound}) Ours (run_round setup round l)
        (λ after. reload setup r after >>= run_rounds setup more) (run_round-IsOurs round l h)
        (λ after k.
          Ensures-bind Ours Ours (reload setup r after) (run_rounds setup more)
            (reload-IsOurs r after.0 after.1 k) (λ l1 h1. run_rounds-IsOurs more l1 h1))

  Ensures-ok : (l : Loop) (o : Outcome Loop) → o ≡ ok l → Ensures Ours o → Ours l
  Ensures-ok l o e h = subst (Ensures Ours) e h

-- From a successful start, and after any rounds and reloads in which nothing fails: each device that
-- is read stands at its path, is one that the filters of the command line want, was grabbed, and does
-- not bear the name of the program's own output device.
pub run_rounds-AllChosen :
    (setup : Setup) (files : DeviceFiles) (kept : Option Text) (config : Config)
    → (handler : EventHandler) (dispatcher : ActionDispatcher) (rounds : List (Round × Reload))
    → (l0 l : Loop) → start_loop setup files kept config handler dispatcher ≡ ok l0
    → run_rounds setup rounds l0 ≡ ok l
    → AllChosen (output_name setup l0) setup.filters l.input_devices
unfolding start_loop
run_rounds-AllChosen setup files kept config handler dispatcher rounds l0 l started ran =
    let name = own_name setup.process kept in
    let h0 : IsOurs setup name l0 =
      Ensures-ok setup name l0 (start_loop setup files kept config handler dispatcher) started (
        selected-IsOurs setup name files kept
          (record {
            handler = handler;
            dispatcher = dispatcher;
            config = config;
            input_devices = [];
            device_name = kept;
          })
          refl) in
    let h : IsOurs setup name l =
      Ensures-ok setup name l (run_rounds setup rounds l0) ran
        (run_rounds-IsOurs setup name rounds l0 h0) in
    subst (λ (n : Text). AllChosen n setup.filters l.input_devices) (sym h0.0) h.1
