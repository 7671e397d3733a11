-- ===== src/Core/Dict/Progress.antt =====
-- A rehash comes to its end: the server's timer and the calls of clients cannot repeat
-- `rehash_step` for ever without completing it.
use keva_db.Base.{
  ℕ, zero, suc, ◌+◌, ◌-◌, ◌*◌, ◌≤◌, ◌<◌, ◌≡◌, refl, ap, inl, inr, Bool, true, false, not, ◌&&◌,
  Option, none, some, arith, ◌==◌, Bool-cases, is_some,
}
use keva_db.Core.Dict.{Dict, hash, Loop, rehash_loop, after_loop, rehash_step, is_rehashing}
use keva_db.Core.Dict.Invariant.{IsDict, Phase}
use keva_db.Core.Dict.Rehash.{idx-lt-size}
use keva_db.Core.Dict.Steps.{Loops, rehash_loop-Loops, rehash_step-Stepped}

-- A bound on the steps that are left: none outside of a rehash.
abbrev pub steps_left : Option ℕ → ℕ → ℕ
steps_left none size = 0
steps_left (some i) size = suc (size - i)

module _ {V : Type 0} where
  abbrev pub left_of : Dict V → ℕ
  left_of d = steps_left d.rehashidx d.ht0.size

  after_loop-left :
      (d : Dict V) (l : Loop V) (steps limit i : ℕ)
      → Loops (hash d) (suc steps) (suc limit) i d.ht0 d.ht1 l
      → left_of (after_loop d l).0 < suc (d.ht0.size - i)
  unfolding after_loop
  after_loop-left d l steps limit i r = elim (Bool-cases (not l.gave_up && l.from.used == 0)) [
    | inl done ↦ rw done (omega arith)
    | inr more ↦
        let busy : 0 < l.from.used = ground (arith, r.left) in
        let inside = idx-lt-size (hash d) l.from l.idx r.moved.pair.table0 r.moved.swept busy in
        rw more (
          omega (
            arith,
            inside,
            r.moved.size0,
            r.fewer,
            r.progress (omega arith) (omega arith) (omega (arith, busy, r.fewer)),
          ))
  ]

  rehash_step-left :
      (d : Dict V) (steps : ℕ)
      → IsDict d
      → is_rehashing d ≡ true
      → left_of (rehash_step (suc steps) d).0 < left_of d
  unfolding rehash_step
  rehash_step-left d steps w busy = go d.rehashidx w.phase busy
    where
      go :
          (r : Option ℕ)
          → Phase r d.ht0 d.ht1
          → is_some r ≡ true
          → left_of
              (elim r as (λ _. Dict V × Bool) [
                | none ↦ (d, true)
                | some i ↦ after_loop d (rehash_loop (suc steps) (suc steps * 10) i d.ht0 d.ht1)
              ]).0
            < steps_left r d.ht0.size
      go none idle busy = cc
      go (some i) (pos1, s) busy =
          let e : suc steps * 10 ≡ suc (steps * 10 + 9) = omega arith in
          rw e (
            after_loop-left d _ steps (steps * 10 + 9) i (
              rehash_loop-Loops (hash d) (suc steps) (suc (steps * 10 + 9)) i d.ht0 d.ht1 w.pair
                pos1 s))

  -- `times` calls of `rehash_step(steps)`.
  unfoldable pub rehash_times : ℕ → ℕ → Dict V → Dict V
  rehash_times zero steps d = d
  rehash_times (suc times) steps d = rehash_times times steps (rehash_step steps d).0

  is_idle : (d : Dict V) → left_of d ≤ 0 → is_rehashing d ≡ false
  is_idle d h = go d.rehashidx h
    where
      go : (r : Option ℕ) → steps_left r d.ht0.size ≤ 0 → is_some r ≡ false
      go none h = refl
      go (some i) h = absurd (omega arith)

  left_idle : (d : Dict V) → is_rehashing d ≡ false → left_of d ≡ 0
  left_idle d e = go d.rehashidx e
    where
      go : (r : Option ℕ) → is_some r ≡ false → steps_left r d.ht0.size ≡ 0
      go none e = refl
      go (some i) e = cc

  rehash_step_idle : (d : Dict V) (steps : ℕ) → is_rehashing d ≡ false → (rehash_step steps d).0 ≡ d
  unfolding rehash_step
  rehash_step_idle d steps e = go d.rehashidx e
    where
      go :
          (r : Option ℕ)
          → is_some r ≡ false
          → (elim r as (λ _. Dict V × Bool) [
            | none ↦ (d, true)
            | some i ↦ after_loop d (rehash_loop steps (steps * 10) i d.ht0 d.ht1)
          ]).0
            ≡ d
      go none e = refl
      go (some i) e = cc

  rehash_times_idle :
      (times steps : ℕ) (d : Dict V)
      → IsDict d
      → left_of d ≤ times
      → is_rehashing (rehash_times times (suc steps) d) ≡ false
  unfolding rehash_times
  rehash_times_idle zero steps d w h = is_idle d h
  rehash_times_idle (suc times) steps d w h =
      let s = rehash_step-Stepped d (suc steps) w in
      rehash_times_idle times steps (rehash_step (suc steps) d).0 s.valid
        (elim (Bool-cases (is_rehashing d)) [
          | inl busy ↦ omega (arith, rehash_step-left d steps w busy)
          | inr idle ↦
              omega (arith, ap left_of (rehash_step_idle d (suc steps) idle), left_idle d idle)
        ])

  left-le : (d : Dict V) → left_of d ≤ d.ht0.size + 1
  left-le d = go d.rehashidx
    where
      go : (r : Option ℕ) → steps_left r d.ht0.size ≤ d.ht0.size + 1
      go none = omega arith
      go (some i) = omega arith

  -- Of a valid dictionary with n buckets in its first table, n + 1 calls of rehash_step with any
  -- positive number of steps end the rehash.
  pub rehash_ends :
      (d : Dict V) (steps : ℕ)
      → IsDict d
      → 0 < steps
      → is_rehashing (rehash_times (d.ht0.size + 1) steps d) ≡ false
  rehash_ends d zero w h = absurd (omega arith)
  rehash_ends d (suc steps) w h = rehash_times_idle (d.ht0.size + 1) steps d w (left-le d)
