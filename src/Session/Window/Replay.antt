-- ===== src/Session/Window/Replay.antt =====
-- Sequences of authenticated counters: what the window accepts in all, and where it errs.
use go_matter.Base.{
  ℕ, ◌+◌, ◌<◌, ◌≡◌, ◌≢◌, ◌⊎◌, inl, inr, refl, ap, ◌>>=◌, ◌-◌, ◌^◌, bit_or, Bool, true, ◌&&◌, not,
  List, [], ◌∷◌, if◌then◌else◌, arith, Result, ok, err, is_ok, Result-cases,
}
use go_matter.Session.Window.{ReplayWindow, Error, accept, check, empty_window}
use go_matter.Session.Window.Log.{contains, highest, is_fresh}
use go_matter.Session.Window.Refinement.{
  Represents, check-is_fresh, accept-Represents, empty_window-Represents,
}

-- The log after counters arrive one by one: an accepted one is added, a refused one changes
-- nothing.
unfoldable pub receive : ReplayWindow → List ℕ → List ℕ → List ℕ
receive w log [] = log
receive w log (c ∷ cs) = elim (accept w c) [
  | ok v ↦ receive v (c ∷ log) cs
  | err e ↦ receive w log cs
]

-- The same, told by freshness alone.
unfoldable pub admit : List ℕ → ℕ → List ℕ
admit log c = if is_fresh log c then c ∷ log else log

unfoldable pub receive_fresh : List ℕ → List ℕ → List ℕ
receive_fresh log [] = log
receive_fresh log (c ∷ cs) = receive_fresh (admit log c) cs

-- Counters are nonzero, and none lies exactly 32 above the highest one accepted before it.
abbrev pub Avoids32 : List ℕ → List ℕ → Type 0
Avoids32 log [] = Unit {0}
Avoids32 log (c ∷ cs) =
    (0 < c) × ((highest log ≡ 0) ⊎ (c ≢ highest log + 32)) × Avoids32 (admit log c) cs

unfoldable pub distinct : List ℕ → Bool
distinct [] = true
distinct (x ∷ xs) = not (contains xs x) && distinct xs

is_ok-bind : {A B : Type 0} (m : Result Error A) (f : A → B) → is_ok (m >>= λ a. ok (f a)) ≡ is_ok m
is_ok-bind (ok a) f = refl
is_ok-bind (err e) f = refl

pub is_ok-accept : (w : ReplayWindow) (c : ℕ) → is_ok (accept w c) ≡ is_ok (check w c)
unfolding accept
is_ok-accept w c = is_ok-bind (check w c) (λ commit. commit w)

-- What the window answers is what freshness says.
accept-admit :
    (w : ReplayWindow) (log : List ℕ) (c : ℕ)
    → Represents w log
    → 0 < c
    → admit log c ≡ (if is_ok (accept w c) then c ∷ log else log)
unfolding admit
accept-admit w log c r pos = rw (is_ok-accept w c, check-is_fresh w log c r pos)

receive-receive_fresh :
    (w : ReplayWindow) (log cs : List ℕ)
    → Represents w log
    → Avoids32 log cs
    → receive w log cs ≡ receive_fresh log cs
unfolding receive receive_fresh
receive-receive_fresh w log [] r h = refl
receive-receive_fresh w log (c ∷ cs) r (pos, edge, h) =
    let edge' : (w.max ≡ 0) ⊎ (c ≢ w.max + 32) = rw r.maximum edge in
    elim (Result-cases (accept w c)) [
      | inl (v, e) ↦
          let added : admit log c ≡ c ∷ log = rw e at (accept-admit w log c r pos) in
          let next = accept-Represents w log c r pos v edge' e in
          rw (e, receive, added) (receive-receive_fresh v (c ∷ log) cs next (rw added at h))
      | inr (x, e) ↦
          let same : admit log c ≡ log = rw e at (accept-admit w log c r pos) in
          rw (e, receive, same) (receive-receive_fresh w log cs r (rw same at h))
    ]

receive_fresh-distinct :
    (log cs : List ℕ) → distinct log ≡ true → distinct (receive_fresh log cs) ≡ true
unfolding receive_fresh
receive_fresh-distinct log [] h = h
receive_fresh-distinct log (c ∷ cs) h =
    receive_fresh-distinct (admit log c) cs (unfold admit distinct is_fresh in ground arith)

-- From an empty window, nonzero counters that never lie exactly 32 above the highest accepted one
-- are accepted exactly when fresh: no counter is accepted twice.
pub receive-distinct :
    (cs : List ℕ)
    → Avoids32 [] cs
    → (receive empty_window [] cs ≡ receive_fresh [] cs)
      × (distinct (receive empty_window [] cs) ≡ true)
receive-distinct cs h =
    let same = receive-receive_fresh empty_window [] cs empty_window-Represents h in
    (same, rw same (receive_fresh-distinct [] cs (unfold distinct in refl)))

accept-edge :
    (m : ℕ)
    → 0 < m
    → accept (record { max = m + 32; bitmap = 0 }) m
      ≡ ok (record { max = m + 32; bitmap = bit_or 0 (2 ^ 31) })
unfolding accept
accept-edge m h =
    let k : m + 32 - m - 1 ≡ 31 = omega arith in ground (arith, k, ap (λ (t : ℕ). 2 ^ t) k)

-- A counter that lies exactly 32 above a nonzero maximum is accepted, and then the old maximum, which
-- was accepted before, is accepted once more.
pub accept-replay :
    (w : ReplayWindow)
    → 0 < w.max
    → (v u : ReplayWindow) × (accept w (w.max + 32) ≡ ok v) × (accept v w.max ≡ ok u)
unfolding accept
accept-replay w h =
    let v : ReplayWindow = record { max = w.max + 32; bitmap = 0 } in
    let u : ReplayWindow = record { max = w.max + 32; bitmap = bit_or 0 (2 ^ 31) } in
    (v, u, ground arith, accept-edge w.max h)
