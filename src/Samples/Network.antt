-- ===== src/Samples/Network.antt =====
-- samples/commissioning/: the two programs on one network, which hands over what they write.
use go_matter.Base.{ℕ, Bool, true, false, List, [], ◌∷◌, some, if◌then◌else◌}
use go_matter.Base.Bytes.{Bytes}
use go_matter.Commissioning.Pase.{Suite, Randomness}
use go_matter.Transport.{start}
use go_matter.Samples.Controller
use go_matter.Samples.Controller.{Controller}
use go_matter.Samples.Device
use go_matter.Samples.Device.{Device}

-- 127.0.0.1:5550 and 127.0.0.1:5540.
pub data Host : Type 0 where
  controller_host device_host : Host

abbrev pub same_host : Host → Host → Bool
same_host controller_host controller_host = true
same_host device_host device_host = true
same_host _ _ = false

-- The datagrams to one host, with the host that they come from.
abbrev pub addressed : (from to : Host) → List (Host × Bytes) → List (Bytes × Host)
addressed from to [] = []
addressed from to ((dest, b) ∷ sent) =
    let rest = addressed from to sent in if same_host to dest then (b, from) ∷ rest else rest

module _ (suite : Suite) (controller_draws device_draws : ℕ → Randomness) where
  -- The host receives what the other one has written.
  unfoldable pub turn : Host → Controller Host × Device Host → Controller Host × Device Host
  unfolding start Controller.handler Device.handler
  turn device_host (c, d) =
      let incoming = addressed controller_host device_host c.sent in
      (record c { sent = [] }, start (some (Device.handler suite device_draws)) incoming d)
  turn controller_host (c, d) =
      let incoming = addressed device_host controller_host d.sent in
      let handle = Controller.handler suite controller_draws device_host in
      (start (some handle) incoming c, record d { sent = [] })

  unfoldable pub turns : List Host → Controller Host × Device Host → Controller Host × Device Host
  turns [] net = net
  turns (host ∷ hosts) net = turns hosts (turn host net)
