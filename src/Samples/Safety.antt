-- ===== src/Samples/Safety.antt =====
-- The two programs, whatever datagrams arrive: what the sessions of their tables come from.
use go_matter.Base.{
  ℕ, ◌≡◌, refl, ap, arith, List, [], some, ok, ◌⊎◌, inl, inr, bind-ok, ok-injective, sym, ◌∙◌,
  Bool-cases, ◌==◌,
}
use mathlib.Core.Path.{subst}
use mathlib.Core.Option.{some-injective, none-ne-some}
use go_matter.Base.Bytes.{Bytes}
use go_matter.Base.Int.{ℤ, pos}
use go_matter.Message.Frame.{Frame}
use go_matter.Session.Manager.{
  Session, SessionManager, Role, initiator, responder, new_session_manager, install_secure_session,
}
use go_matter.Crypto.Provider.{Hkdf}
use go_matter.Crypto.SessionKeys.{derive_session_keys_from_ke}
use go_matter.Commissioning.Pase.{Suite, Randomness, keys_of, install_pase_session}
use go_matter.Commissioning.Commissioner
use go_matter.Commissioning.Commissioner.{Commissioner, new_commissioner}
use go_matter.Commissioning.Commissionee.{Commissionee, new_commissionee}
use go_matter.Commissioning.Safety.Controller.{ControllerConfirmed, controller_table-changes}
use go_matter.Commissioning.Safety.Device.{DeviceConfirmed, device_table-changes}
use go_matter.Transport.{start}
use go_matter.Samples.Installed.{InstalledBy, start-InstalledBy}
use go_matter.Samples.Controller
use go_matter.Samples.Controller.{Controller}
use go_matter.Samples.Device
use go_matter.Samples.Device.{Device}

-- Installing changes the table under the side's own id alone.
install_pase_session-other :
    (kdf : Hkdf) (sm sm' : SessionManager) (own : ℕ) (ke : Bytes) (role : Role) (id : ℕ)
    → install_pase_session kdf sm own ke role ≡ ok sm'
    → (sm' id ≡ sm id) ⊎ (own ≡ id)
unfolding install_pase_session install_secure_session
install_pase_session-other kdf sm sm' own ke role id h =
    let (keys, derived, e) = bind-ok (keys_of (derive_session_keys_from_ke kdf ke)) _ h in
    let here = ap (λ (t : SessionManager). t id) (ok-injective e) in
    elim (Bool-cases (id == own)) [
      | inl same ↦ inr (ground arith)
      | inr differs ↦ inl (sym here ∙ rw differs)
    ]

-- The device's and the controller's sessions of this kind: the confirmation installs under the own
-- id of the side, which is the session's.
abbrev DeviceInstalls : {A : Type 0} → Suite → ℕ → Frame → Device A → Device A → Type 0
DeviceInstalls suite id f before after =
    DeviceConfirmed suite f before.commissionee after.commissionee
    × (before.commissionee.session_id ≡ id)

abbrev pub DeviceInstalled :
    {A : Type 0} → Suite → (ℕ → Randomness) → Device A → List (Bytes × A) → ℕ → Session → Type 0
DeviceInstalled suite draws first bs id s =
    InstalledBy (Device.handler suite draws) (λ d. d.commissionee.session_manager)
      (DeviceInstalls suite id) first bs id s

abbrev ControllerInstalls : {A : Type 0} → Suite → ℕ → Frame → Controller A → Controller A → Type 0
ControllerInstalls suite id f before after =
    ControllerConfirmed suite f before.commissioner after.commissioner
    × (before.commissioner.session_id ≡ id)

abbrev pub ControllerInstalled :
    {A : Type 0}
    → Suite
    → (ℕ → Randomness)
    → A
    → Controller A
    → List (Bytes × A)
    → ℕ
    → Session
    → Type 0
ControllerInstalled suite draws device_addr first bs id s =
    InstalledBy (Controller.handler suite draws device_addr) (λ c. c.commissioner.session_manager)
      (ControllerInstalls suite id) first bs id s

commissionee_empty :
    (suite : Suite) (passcode : ℕ) (salt : Bytes) (rounds : ℤ) (d : Commissionee)
    → new_commissionee suite passcode salt rounds (some new_session_manager) ≡ ok d
    → d.session_manager ≡ new_session_manager
unfolding new_commissionee
commissionee_empty suite passcode salt rounds d h = ground arith

module _ {A : Type 0} (suite : Suite) (draws : ℕ → Randomness) where
  device_changes :
      (id : ℕ) (f : Frame) (from : A) (d : Device A)
      → let after = Device.handler suite draws f from d in
        (after.commissionee.session_manager id ≡ d.commissionee.session_manager id)
        ⊎ DeviceInstalls suite id f d after
  unfolding Device.handler
  device_changes id f from d =
      elim (device_table-changes suite f d.commissionee (draws d.handled)) [
        | inl kept ↦ inl (ap (λ (t : SessionManager). t id) kept)
        | inr confirmed ↦
            elim (install_pase_session-other suite.hashes.kdf _ _ d.commissionee.session_id _
              responder id confirmed.installed) [
                | inl other ↦ inl other
                | inr own ↦ inr (confirmed, own)
              ]
      ]

  -- If the device's program, whatever datagrams arrive, has a session in its table, then one of
  -- these datagrams brought it: in the state that the datagrams before it led to, it decodes to a
  -- frame with the confirmation that the verifier of that state expects, and its handler installs
  -- the session under the device's session id, from the verifier's shared key.
  pub device_main-InstalledBy :
      (bs : List (Bytes × A)) (d : Device A) (id : ℕ) (s : Session)
      → Device.main suite draws bs ≡ ok d
      → d.commissionee.session_manager id ≡ some s
      → (first : Device A) × (Device.main suite draws [] ≡ ok first)
        × DeviceInstalled suite draws first bs id s
  unfolding Device.main Device.handler start new_session_manager
  device_main-InstalledBy bs d id s h there =
      let (c, made, h') =
        bind-ok (new_commissionee suite 12345678 Device.salt (pos 1000) (some new_session_manager))
          _ h in
      let empty = commissionee_empty suite 12345678 Device.salt (pos 1000) c made in
      let last =
        subst (λ (x : Device A). x.commissionee.session_manager id ≡ some s) (sym (ok-injective h'))
          there in
      elim (start-InstalledBy (Device.handler suite draws) (λ d. d.commissionee.session_manager)
        (DeviceInstalls suite id) id (device_changes id) s bs (Device.new_device c) last) [
          | inl old ↦ absurd (none-ne-some _ (sym (ap (λ (t : SessionManager). t id) empty) ∙ old))
          | inr by ↦ (Device.new_device c, rw made, by)
        ]

module _ {A : Type 0} (suite : Suite) (draws : ℕ → Randomness) (device_addr : A) where
  start_pase-keeps :
      (c : Controller A)
      → (Controller.start_pase suite draws device_addr c).commissioner.session_manager
        ≡ c.commissioner.session_manager
  unfolding Controller.start_pase Commissioner.start_pase Commissioner.build_frame
  start_pase-keeps c = ground arith

  controller_changes :
      (id : ℕ) (f : Frame) (from : A) (c : Controller A)
      → let after = Controller.handler suite draws device_addr f from c in
        (after.commissioner.session_manager id ≡ c.commissioner.session_manager id)
        ⊎ ControllerInstalls suite id f c after
  unfolding Controller.handler
  controller_changes id f from c =
      elim (controller_table-changes suite f (draws c.called) c.commissioner) [
        | inl kept ↦ inl (ap (λ (t : SessionManager). t id) kept)
        | inr confirmed ↦
            elim (install_pase_session-other suite.hashes.kdf _ _ c.commissioner.session_id _
              initiator id confirmed.installed) [
                | inl other ↦ inl other
                | inr own ↦ inr (confirmed, own)
              ]
      ]

  -- If the controller's program, whatever datagrams arrive before and after it starts PASE, has a
  -- session in its table, then one of these datagrams brought it: in the state that the datagrams
  -- before it led to, it decodes to a Pake2 with whose share the prover of that state finishes and
  -- whose confirmation the finished prover accepts, and its handler installs the session under the
  -- controller's session id, from the prover's shared key.
  pub controller_main-InstalledBy :
      (early late : List (Bytes × A)) (c : Controller A) (id : ℕ) (s : Session)
      → Controller.main suite draws device_addr early late ≡ some c
      → c.commissioner.session_manager id ≡ some s
      → (new : Commissioner) × (begun : Controller A) × (new_commissioner (some new_session_manager)
          ≡ some new)
        × (Controller.main suite draws device_addr early [] ≡ some begun)
        × (ControllerInstalled suite draws device_addr (Controller.new_controller new) early id s
            ⊎ ControllerInstalled suite draws device_addr begun late id s)
  unfolding Controller.main new_commissioner start new_session_manager
  controller_main-InstalledBy early late c id s h there =
      let handle = Controller.handler suite draws device_addr in
      let table : Controller A → SessionManager = λ c. c.commissioner.session_manager in
      let Installs = ControllerInstalls suite id in
      let new : Controller A = Controller.new_controller _ in
      let waited : Controller A = start (some handle) early new in
      let begun : Controller A = Controller.start_pase suite draws device_addr waited in
      let last = subst (λ x. table x id ≡ some s) (sym (some-injective _ _ h)) there in
      elim (start-InstalledBy handle table Installs id (controller_changes id) s late begun last) [
        | inr by ↦ (_, begun, refl, refl, inr by)
        | inl old ↦
            let old' = sym (ap (λ (t : SessionManager). t id) (start_pase-keeps waited)) ∙ old in
            elim (start-InstalledBy handle table Installs id (controller_changes id) s early new
              old') [
                | inr by ↦ (_, begun, refl, refl, inl by)
                | inl older ↦ absurd (none-ne-some _ older)
              ]
      ]
