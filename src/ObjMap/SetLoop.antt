-- ===== src/ObjMap/SetLoop.antt =====
-- The loop of `obj_map_set` (src/object.c): it ends at the key's slot, or at room for a new key.
use vek.Prelude.{
  ℕ, zero, suc, ◌+◌, ◌^◌, ◌≤◌, ◌<◌, ◌≡◌, refl, ap, ◌∙◌, Option, none, some, List, arith,
}
use vek.ObjMap.{
  Slot, empty, tombstone, live, slot, next, set_loop, Target, insert, update, remember, reuse,
}
use vek.ObjMap.Probe.{place, next-place}
use vek.ObjMap.Loops.{IsPassed, IsFull, met, IsRoom}

module _ {ℓ} {V : Type ℓ} (capacity : ℕ) (entries : List (Slot V)) (key : ℕ) where
  -- the tombstone slot after a slot is passed
  abbrev pub noted : Option ℕ → ℕ → Slot V → Option ℕ
  noted tomb index tombstone = remember tomb index
  noted tomb index _ = tomb

  set_loop-passed :
      (fuel index : ℕ) (tomb : Option ℕ) (s : Slot V)
      → slot entries index ≡ s
      → IsPassed key s
      → set_loop (suc fuel) capacity entries key tomb index
        ≡ set_loop fuel capacity entries key (noted tomb index s) (next capacity index)
  unfolding set_loop
  set_loop-passed fuel index tomb empty e p = elim p [ ]
  set_loop-passed fuel index tomb tombstone e p = ground arith
  set_loop-passed fuel index tomb (live k v) e p = ground arith

module _ {ℓ} {V : Type ℓ} (k : ℕ) (entries : List (Slot V)) (key h : ℕ) where
  abbrev run : ℕ → Option ℕ → ℕ → Option Target
  run fuel tomb d = set_loop fuel (2 ^ k) entries key tomb (place (2 ^ k) h d)

  run_step :
      (fuel d : ℕ) (tomb : Option ℕ)
      → IsPassed key (met k entries h d)
      → run (suc fuel) tomb d
        ≡ run fuel (noted (2 ^ k) entries key tomb (place (2 ^ k) h d) (met k entries h d)) (d + 1)
  run_step fuel d tomb p =
      set_loop-passed (2 ^ k) entries key fuel (place (2 ^ k) h d) tomb _ refl p
      ∙ ap (set_loop fuel (2 ^ k) entries key _) (next-place k h d)

  run_at_live :
      (fuel d : ℕ) (tomb : Option ℕ) (v : V)
      → met k entries h d ≡ live key v
      → run (suc fuel) tomb d ≡ some (update (place (2 ^ k) h d))
  unfolding set_loop
  run_at_live fuel d tomb v e = ground arith

  run_at_empty :
      (fuel d : ℕ) (tomb : Option ℕ)
      → met k entries h d ≡ empty
      → run (suc fuel) tomb d ≡ some (insert (reuse tomb (place (2 ^ k) h d)))
  unfolding set_loop
  run_at_empty fuel d tomb e = ground arith

  pub set_loop-live :
      (n d t fuel : ℕ) (tomb : Option ℕ) (v : V)
      → d + n ≡ t
      → n < fuel
      → ((e : ℕ) → d ≤ e → e < t → IsPassed key (met k entries h e))
      → met k entries h t ≡ live key v
      → run fuel tomb d ≡ some (update (place (2 ^ k) h t))
  set_loop-live n d t zero tomb v eq lt s at = absurd (omega arith)
  set_loop-live zero d t (suc fuel) tomb v eq lt s at =
      let here : d ≡ t = omega arith in
      run_at_live fuel d tomb v (ap (met k entries h) here ∙ at)
      ∙ ap (λ e. some (update (place (2 ^ k) h e))) here
  set_loop-live (suc n) d t (suc fuel) tomb v eq lt s at =
      run_step fuel d tomb (s d (omega arith) (omega arith))
      ∙ set_loop-live n (d + 1) t fuel _ v (omega arith) (omega arith)
          (λ e a b. s e (omega arith) b) at

  -- The remembered tombstone is room for the key.
  abbrev pub IsNoted : Option ℕ → Type 0
  IsNoted none = Unit
  IsNoted (some index) = IsRoom k entries h index

  reuse-IsRoom :
      (t : ℕ) (tomb : Option ℕ)
      → IsNoted tomb
      → IsRoom k entries h (place (2 ^ k) h t)
      → IsRoom k entries h (reuse tomb (place (2 ^ k) h t))
  reuse-IsRoom t none ok room = room
  reuse-IsRoom t (some index) ok room = ok

  noted-IsNoted :
      (d : ℕ) (tomb : Option ℕ) (s : Slot V)
      → met k entries h d ≡ s
      → d < 2 ^ k
      → ((e : ℕ) → e < d → IsFull (met k entries h e))
      → IsNoted tomb
      → IsNoted (noted (2 ^ k) entries key tomb (place (2 ^ k) h d) s)
  noted-IsNoted d none tombstone e near full ok = record {
    d = d;
    near = near;
    at = refl;
    vacant = λ l. rw e at l;
    full = full;
  }
  noted-IsNoted d (some i) tombstone e near full ok = ok
  noted-IsNoted d tomb empty e near full ok = ok
  noted-IsNoted d tomb (live j v) e near full ok = ok

  pub set_loop-empty :
      (n d t fuel : ℕ) (tomb : Option ℕ)
      → d + n ≡ t
      → t < 2 ^ k
      → n < fuel
      → ((e : ℕ) → d ≤ e → e < t → IsPassed key (met k entries h e))
      → ((e : ℕ) → e < t → IsFull (met k entries h e))
      → met k entries h t ≡ empty
      → IsNoted tomb
      → (index : ℕ) × (run fuel tomb d ≡ some (insert index)) × IsRoom k entries h index
  set_loop-empty n d t zero tomb eq near lt s full at ok = absurd (omega arith)
  set_loop-empty zero d t (suc fuel) tomb eq near lt s full at ok =
      let here : d ≡ t = omega arith in
      (
        reuse tomb (place (2 ^ k) h t),
        run_at_empty fuel d tomb (ap (met k entries h) here ∙ at)
            ∙ ap (λ e. some (insert (reuse tomb (place (2 ^ k) h e)))) here,
        reuse-IsRoom t tomb ok
            (record { d = t; near = near; at = refl; vacant = λ l. rw at at l; full = full }),
      )
  set_loop-empty (suc n) d t (suc fuel) tomb eq near lt s full at ok =
      let (index, r, room) =
        set_loop-empty n (d + 1) t fuel
          (noted (2 ^ k) entries key tomb (place (2 ^ k) h d) (met k entries h d)) (omega arith)
          near (omega arith) (λ e a b. s e (omega arith) b) full at
          (noted-IsNoted d tomb _ refl (omega arith) (λ e a. full e (omega arith)) ok) in
      (index, run_step fuel d tomb (s d (omega arith) (omega arith)) ∙ r, room)

  -- with neither the key nor an empty slot the loop uses up all its fuel
  pub set_loop_spins :
      (fuel d : ℕ) (tomb : Option ℕ)
      → ((e : ℕ) → IsPassed key (met k entries h e))
      → run fuel tomb d ≡ none
  unfolding set_loop
  set_loop_spins zero d tomb s = refl
  set_loop_spins (suc fuel) d tomb s = run_step fuel d tomb (s d) ∙ set_loop_spins fuel (d + 1) _ s
