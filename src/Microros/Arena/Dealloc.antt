-- ===== src/Microros/Arena/Dealloc.antt =====
-- Deallocate on the list of blocks.
use mentor_pi_ros.Prelude.{
  ℕ, ◌-◌, ◌≤◌, ◌≡◌, refl, sym, ◌∙◌, ap, subst, Bool, true, false, not, List, ◌∷◌, arith, ◌==◌,
  if◌then◌else◌, Bool-cases, inl, inr,
}
use mentor_pi_ros.Microros.Arena.{
  Arena, no_offset, block_free, state, validate_block, merge_with_next, merge_with_previous,
  release_block, previous_offset,
}
use mentor_pi_ros.Microros.Arena.Blocks.{
  Block, state_of, end_of, Tiled, cons, head_of, rest_of, room_at, Headed-frame, Sound,
  Headed-valid,
}
use mentor_pi_ros.Microros.Arena.Split.{Kept}
use mentor_pi_ros.Microros.Arena.Merge.{join, merge_with_next-Kept}
use mentor_pi_ros.Microros.Arena.Place.{marked}
use mentor_pi_ros.Microros.Arena.Free.{
  Released, Kept-Sound, join-before, opened, after_next, freed, release_block-steps, next-Kept,
  next-Released, next-below, opened-Sound,
}

-- A block before the freed one takes it in when it is free.
unfoldable pub join_behind : Block → List Block → List Block
unfolding join
join_behind q bs = if q.used then q ∷ bs else join q bs

merge_with_previous-eq :
    (m : Arena) (at offset : ℕ)
    → m.healthy ≡ true
    → previous_offset m.memory at ≡ offset
    → (offset == no_offset) ≡ false
    → validate_block m offset ≡ true
    → merge_with_previous m at ≡ (
        if state m.memory offset == block_free
        then ((merge_with_next m offset).healthy, merge_with_next m offset)
        else (m.healthy, m))
unfolding merge_with_previous
merge_with_previous-eq m at offset healthy names inner valid =
    rw (names, valid, inner) (first_test _ _ m.healthy healthy)
  where
    first_test : (x y : Bool × Arena) (h : Bool) → h ≡ true → (if not h then x else y) ≡ y
    first_test x y h e = rw e refl

state_test : (word : ℕ) (q : Block) → word ≡ state_of q → (word == block_free) ≡ not q.used
state_test word q e = ground (arith, e)

choose_result :
    (test : Bool) (x y : Bool × Arena)
    → (test ≡ true → (if test then x else y) ≡ x) × (test ≡ false → (if test then x else y) ≡ y)
choose_result true x y = (λ _. refl, λ off. absurd (ground (arith, off)))
choose_result false x y = (λ on. absurd (ground (arith, on)), λ _. refl)

join_behind-cases :
    (q : Block) (bs : List Block)
    → (q.used ≡ true → join_behind q bs ≡ q ∷ bs) × (q.used ≡ false → join_behind q bs ≡ join q bs)
unfolding join_behind
join_behind-cases q bs = choose q.used (q ∷ bs) (join q bs)
  where
    choose :
        (u : Bool) (x y : List Block)
        → (u ≡ true → (if u then x else y) ≡ x) × (u ≡ false → (if u then x else y) ≡ y)
    choose true x y = (λ _. refl, λ off. absurd (ground (arith, off)))
    choose false x y = (λ on. absurd (ground (arith, on)), λ _. refl)

module _ (a : Arena) (offset previous : ℕ) (q b : Block) (bs : List Block) (sound : Sound a)
    (t : Tiled a.memory a.capacity offset previous (q ∷ b ∷ bs)) (used : b.used ≡ true)
    (counted : b.size ≤ a.bytes_used) where
  abbrev here : ℕ
  here = end_of offset q

  abbrev middle : Arena
  middle = after_next a here offset b bs

  middle-Kept : Kept (opened a here offset b bs) middle here offset (freed a here offset b bs)
  middle-Kept = next-Kept a here offset b bs sound (rest_of t) used counted

  middle-Released :
      Released a here offset (a.bytes_used - b.size) (freed a here offset b bs) (true, middle)
  middle-Released = next-Released a here offset b bs sound (rest_of t) used counted

  middle-Tiled : Tiled middle.memory a.capacity offset previous (q ∷ freed a here offset b bs)
  middle-Tiled =
      cons
        (Headed-frame
          (λ x le lt. next-below a here offset b bs sound (rest_of t) used counted x (omega arith))
          (head_of t))
        middle-Released.tiled

  middle-Sound : Sound middle
  middle-Sound =
      Kept-Sound (opened a here offset b bs) middle
        (opened-Sound a here offset b bs sound (rest_of t) used counted) middle-Kept

  names_previous : previous_offset middle.memory here ≡ offset
  names_previous = join-before (marked false b) bs middle-Released.tiled

  previous_valid : validate_block middle offset ≡ true
  previous_valid =
      let tiled : Tiled middle.memory middle.capacity offset previous
          (q ∷ freed a here offset b bs) =
        subst (λ n. Tiled middle.memory n offset previous (q ∷ freed a here offset b bs))
          (sym middle-Released.same_capacity) middle-Tiled in
      (Headed-valid middle offset previous q middle-Sound (head_of tiled)
        (room_at (rest_of tiled))).0

  some_previous : (offset == no_offset) ≡ false
  some_previous =
      let fits = (head_of t).fits in
      let word = sound.word in let aligned = sound.aligned in ground (arith, fits, word)

  abbrev bs' : List Block
  bs' = freed a here offset b bs

  abbrev Result : List Block → Bool × Arena → Type 0
  Result l r = Released a offset previous (a.bytes_used - b.size) l r

  -- The block before is in use, and stays as it is.
  apart : Result (q ∷ bs') (middle.healthy, middle)
  apart = record {
    done = middle-Released.healthy;
    tiled = middle-Tiled;
    below = λ x lt. middle-Released.below x (omega arith);
    healthy = middle-Released.healthy;
    same_storage = middle-Released.same_storage;
    same_capacity = middle-Released.same_capacity;
    bytes_used = middle-Released.bytes_used;
  }

  abbrev both : Arena
  both = merge_with_next middle offset

  both-Kept : Kept middle both offset previous (join q bs')
  both-Kept = merge_with_next-Kept middle offset previous q bs' middle-Sound (
      subst (λ n. Tiled middle.memory n offset previous (q ∷ bs'))
        (sym middle-Released.same_capacity) middle-Tiled)

  together : Result (join q bs') (both.healthy, both)
  together = record {
    done = ap Arena.healthy both-Kept.only_memory ∙ middle-Released.healthy;
    tiled =
        subst (λ n. Tiled both.memory n offset previous (join q bs')) middle-Released.same_capacity
          both-Kept.tiled;
    below = λ x lt. both-Kept.below x lt ∙ middle-Released.below x (omega arith);
    healthy = ap Arena.healthy both-Kept.only_memory ∙ middle-Released.healthy;
    same_storage = ap Arena.storage both-Kept.only_memory ∙ middle-Released.same_storage;
    same_capacity = ap Arena.capacity both-Kept.only_memory ∙ middle-Released.same_capacity;
    bytes_used = ap Arena.bytes_used both-Kept.only_memory ∙ middle-Released.bytes_used;
  }

  -- A block with one before it joins that too when it is free.
  pub second-Released :
      Released a offset previous
        (a.bytes_used - b.size)
        (join_behind q (freed a here offset b bs))
        (release_block a here)
  second-Released =
      let steps =
        release_block-steps a here offset b bs sound (rest_of t) used counted
        ∙ merge_with_previous-eq middle here offset middle-Released.healthy names_previous
            some_previous previous_valid in
      let q_state = (head_of middle-Tiled).state in
      elim (Bool-cases q.used) [
        | inl taken ↦
            let keeps = state_test (state middle.memory offset) q q_state ∙ ap not taken in
            subst (Result (join_behind q bs'))
              (sym
                (steps ∙ (choose_result _ (both.healthy, both) (middle.healthy, middle)).1 keeps))
              (subst (λ l. Result l (middle.healthy, middle))
                (sym ((join_behind-cases q bs').0 taken)) apart)
        | inr free ↦
            let joins = state_test (state middle.memory offset) q q_state ∙ ap not free in
            subst (Result (join_behind q bs'))
              (sym
                (steps ∙ (choose_result _ (both.healthy, both) (middle.healthy, middle)).0 joins))
              (subst (λ l. Result l (both.healthy, both)) (sym ((join_behind-cases q bs').1 free))
                together)
      ]
