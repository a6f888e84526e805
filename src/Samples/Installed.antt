-- ===== src/Samples/Installed.antt =====
-- Where a session that the receive loop leaves in a program's table comes from.
use go_matter.Base.{
  ℕ, ◌≡◌, refl, ap, List, [], ◌∷◌, ◌++◌, take, some, Result, ok, err, ◌⊎◌, inl, inr, sym, ◌∙◌,
  Result-cases,
}
use mathlib.Core.Path.{subst}
use go_matter.Base.Bytes.{Bytes}
use go_matter.Message.Wire
use go_matter.Message.Frame
use go_matter.Message.Frame.{Frame}
use go_matter.Session.Manager.{Session, SessionManager}
use go_matter.Transport.{start, buffer_size, dispatch}

-- A session `s` that a program's table has under `id`, with the datagram that brought it: one of
-- those that arrived, which decodes to a frame. In the state that the datagrams before it led to,
-- the handler confirms that frame, and leaves a table with the session.
pub record InstalledBy {A S : Type 0} (handle : Frame → A → S → S) (table : S → SessionManager)
    (Confirmed : Frame → S → S → Type 0) (first : S) (bs : List (Bytes × A)) (id : ℕ) (s : Session)
    : Type 0 where
  pub earlier : List (Bytes × A)
  pub datagram : Bytes
  pub from : A
  pub later : List (Bytes × A)
  pub split : bs ≡ earlier ++ ((datagram, from) ∷ later)
  pub frame : Frame
  pub decoded : Frame.decode (take buffer_size datagram) ≡ ok frame
  pub confirmed :
      let before = start (some handle) earlier first in
      Confirmed frame before (handle frame from before)
  pub there : table (handle frame from (start (some handle) earlier first)) id ≡ some s

module _ {A S : Type 0} (handle : Frame → A → S → S) (table : S → SessionManager)
    (Confirmed : Frame → S → S → Type 0) (id : ℕ)
    (changes : (f : Frame) (from : A) (s : S)
      → (table (handle f from s) id ≡ table s id) ⊎ Confirmed f s (handle f from s))
    (s : Session) where
  start-step :
      (b : Bytes) (from : A) (bs : List (Bytes × A)) (first : S) (r : Result Wire.Error Frame)
      → Frame.decode (take buffer_size b) ≡ r
      → start (some handle) ((b, from) ∷ bs) first
        ≡ start (some handle) bs (dispatch (some handle) r from first)
  unfolding start
  start-step b from bs first r e =
      ap
        (λ (r : Result Wire.Error Frame).
          start (some handle) bs (dispatch (some handle) r from first))
        e

  -- What was installed behind a datagram was installed by a datagram of the whole list.
  behind :
      (b : Bytes) (from : A) (bs : List (Bytes × A)) (first : S) (r : Result Wire.Error Frame)
      → Frame.decode (take buffer_size b) ≡ r
      → InstalledBy handle table Confirmed (dispatch (some handle) r from first) bs id s
      → InstalledBy handle table Confirmed first ((b, from) ∷ bs) id s
  behind b from bs first r e by =
      let step = sym (start-step b from by.earlier first r e) in
      record {
        earlier = (b, from) ∷ by.earlier;
        datagram = by.datagram;
        from = by.from;
        later = by.later;
        split = ap (λ (xs : List (Bytes × A)). (b, from) ∷ xs) by.split;
        frame = by.frame;
        decoded = by.decoded;
        confirmed = subst (λ x. Confirmed by.frame x (handle by.frame by.from x)) step by.confirmed;
        there = subst (λ x. table (handle by.frame by.from x) id ≡ some s) step by.there;
      }

  pub start-InstalledBy :
      (bs : List (Bytes × A)) (first : S)
      → table (start (some handle) bs first) id ≡ some s
      → (table first id ≡ some s) ⊎ InstalledBy handle table Confirmed first bs id s
  unfolding start
  start-InstalledBy [] first h = inl h
  start-InstalledBy ((b, from) ∷ bs) first h =
      elim (Result-cases (Frame.decode (take buffer_size b))) [
        | inr (e, bad) ↦
            let h' = subst (λ x. table x id ≡ some s) (start-step b from bs first (err e) bad) h in
            elim (start-InstalledBy bs first h') [
              | inl old ↦ inl old
              | inr by ↦ inr (behind b from bs first (err e) bad by)
            ]
        | inl (f, good) ↦
            let h' = subst (λ x. table x id ≡ some s) (start-step b from bs first (ok f) good) h in
            elim (start-InstalledBy bs (handle f from first) h') [
              | inr by ↦ inr (behind b from bs first (ok f) good by)
              | inl new ↦ elim (changes f from first) [
                | inl kept ↦ inl (sym kept ∙ new)
                | inr confirmed ↦ inr (record {
                  earlier = [];
                  datagram = b;
                  from = from;
                  later = bs;
                  split = refl;
                  frame = f;
                  decoded = good;
                  confirmed = confirmed;
                  there = new;
                })
              ]
            ]
      ]
