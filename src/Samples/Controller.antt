-- ===== src/Samples/Controller.antt =====
-- samples/commissioning/controller/main.go.
use go_matter.Base.{ℕ, suc, List, [], ◌++◌, Option, none, some, Result, ok, err}
use go_matter.Base.Bytes.{Bytes}
use go_matter.Message.Frame.{Frame}
use go_matter.Session.Manager.{new_session_manager}
use go_matter.Commissioning.Pase
use go_matter.Commissioning.Pase.{Suite, Randomness}
use go_matter.Commissioning.Commissioner
use go_matter.Commissioning.Commissioner.{Commissioner, new_commissioner}
use go_matter.Transport.{start}
use go_matter.Samples.{send_message, written}

-- The commissioner, the datagrams that were written, and how many of its methods ran, which picks
-- the draws of the next.
pub record Controller (A : Type 0) : Type 0 where
  pub commissioner : Commissioner
  pub sent : List (A × Bytes)
  pub called : ℕ

abbrev pub new_controller : {A : Type 0} → Commissioner → Controller A
new_controller c = record { commissioner = c; sent = []; called = 0 }

-- The frame of a method, to the address of the device.
unfoldable pub sending : {A : Type 0} → A → Result Pase.Error Frame → List (A × Bytes)
unfolding send_message
sending device_addr (err e) = []
sending device_addr (ok frame) = written (send_message (some device_addr) frame)

module _ {A : Type 0} (suite : Suite) (draws : ℕ → Randomness) (device_addr : A) where
  -- A method of the commissioner, with the frame that it sends.
  abbrev pub called_with : Commissioner.Method Frame → Controller A → Controller A
  called_with method c =
      let step = method c.commissioner in
      record {
        commissioner = step.0;
        sent = c.sent ++ sending device_addr step.1;
        called = suc c.called;
      }

  -- The handler that `main` passes to `Start`.
  unfoldable pub handler : Frame → A → Controller A → Controller A
  unfolding sending
  handler frame from c = called_with (Commissioner.handle_message suite frame (draws c.called)) c

  -- `commissioner.StartPASE(12345678)`
  unfoldable pub start_pase : Controller A → Controller A
  unfolding sending
  start_pase c = called_with (Commissioner.start_pase 12345678 (draws c.called)) c

  -- `main`, until the socket fails, with the datagrams that arrive before it starts PASE and those
  -- that arrive later; none is the panic on a nil session manager.
  unfoldable pub main : (early late : List (Bytes × A)) → Option (Controller A)
  unfolding handler start_pase new_commissioner start new_session_manager
  main early late = elim (new_commissioner (some new_session_manager)) [
    | none ↦ none
    | some c ↦
        some
          (start (some handler) late (start_pase (start (some handler) early (new_controller c))))
  ]
