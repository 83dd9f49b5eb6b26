-- ===== src/Microros/Arena/Merge.antt =====
-- MergeWithNext: what it does to the list of blocks.
use mentor_pi_ros.Prelude.{
  ℕ, ◌+◌, ◌%◌, ◌^◌, ◌<◌, ◌≡◌, refl, sym, ◌∙◌, subst, Bool, true, false, List, [], ◌∷◌, arith, ◌==◌,
  ◌!=◌, if◌then◌else◌, inl, inr, Bool-cases,
}
use mentor_pi_ros.Microros.Arena.{
  Arena, Memory, header_size, block_free, write, next_offset, validate_block,
  set_following_previous, merge_with_next, state,
}
use mentor_pi_ros.Microros.Arena.Blocks.{
  Block, end_of, Headed, Tiled, nil, cons, room_at, Headed-frame, Tiled-frame, Sound, Headed-valid,
  relink-Tiled, relink-below, set_following_previous-relink,
}
use mentor_pi_ros.Microros.Arena.Split.{Kept}

abbrev pub joined : Block → Block → Block
joined b c = record b { size = b.size + header_size + c.size }

unfoldable pub join : Block → List Block → List Block
join b [] = b ∷ []
join b (c ∷ bs) = if c.used then b ∷ c ∷ bs else joined b c ∷ bs

module _ (a : Arena) (offset previous : ℕ) (b : Block) where
  merge-last :
      Sound a
      → Headed a.memory a.capacity offset previous b
      → end_of offset b ≡ a.capacity
      → merge_with_next a offset ≡ a
  unfolding merge_with_next
  merge-last sound h ends =
      let valid = Headed-valid a offset previous b sound h (inl ends) in
      rw (valid.0, valid.1, ends) (ground arith)

  module _ (c : Block) (bs : List Block) (sound : Sound a)
      (h : Headed a.memory a.capacity offset previous b)
      (g : Headed a.memory a.capacity (end_of offset b) offset c)
      (t : Tiled a.memory a.capacity (end_of (end_of offset b) c) (end_of offset b) bs) where
    both_valid :
        (validate_block a offset ≡ true)
        × (next_offset a.memory offset ≡ end_of offset b)
        × (validate_block a (end_of offset b) ≡ true)
    both_valid =
        let fits = g.fits in
        let first = Headed-valid a offset previous b sound h (inr (omega arith)) in
        let second = Headed-valid a (end_of offset b) offset c sound g (room_at t) in
        (first.0, first.1, second.0)

    not_last : (end_of offset b == a.capacity) ≡ false
    not_last = let fits = g.fits in ground (arith, fits)

    merge-used : c.used ≡ true → merge_with_next a offset ≡ a
    unfolding merge_with_next
    merge-used used =
        let valid = both_valid in
        let taken : (state a.memory (end_of offset b) != block_free) ≡ true =
          ground (arith, g.state, used) in
        rw (valid.0, valid.1, not_last, valid.2, taken) refl

    -- The memory with the size of both.
    grown : Memory
    unfolding write
    grown = write a.memory offset (b.size + header_size + c.size)

    grown-else : (x : ℕ) → x < offset → grown x ≡ a.memory x
    unfolding grown write
    grown-else x lt = ground (arith, lt)

    grown-behind : (x : ℕ) → offset < x → grown x ≡ a.memory x
    unfolding grown write
    grown-behind x lt = ground (arith, lt)

    grown-Headed : Headed grown a.capacity offset previous (joined b c)
    unfolding grown write
    grown-Headed = record {
      size = ground arith;
      before = ground (arith, h.before);
      magic = ground (arith, h.magic);
      state = ground (arith, h.state);
      offset_aligned = h.offset_aligned;
      size_aligned = let one = h.size_aligned in let two = g.size_aligned in omega arith;
      fits = let fits = g.fits in omega arith;
    }

    merge-free :
        c.used ≡ false
        → merge_with_next a offset ≡ set_following_previous (record a { memory = grown }) offset
    unfolding merge_with_next grown
    merge-free free =
        let valid = both_valid in
        let open_ : (state a.memory (end_of offset b) != block_free) ≡ false =
          ground (arith, g.state, free) in
        let fits = g.fits in
        let word = sound.word in
        let sum : (a.memory offset + (header_size + a.memory (end_of offset b))) % 2 ^ 32
            ≡ b.size + header_size + c.size =
          omega (arith, h.size, g.size) in
        rw (valid.0, valid.1, not_last, valid.2, open_, sum) refl

    merge-Kept :
        c.used ≡ false → Kept a (merge_with_next a offset) offset previous (joined b c ∷ bs)
    merge-Kept free =
        let larger = record a { memory = grown } in
        let sound' : Sound larger = record {
          healthy = sound.healthy;
          word = sound.word;
          aligned = sound.aligned;
        } in
        let same_end : end_of (end_of offset b) c ≡ end_of offset (joined b c) = omega arith in
        let behind =
          subst (λ n. Tiled grown a.capacity n (end_of offset b) bs) same_end
            (Tiled-frame (λ x le. grown-behind x (omega arith)) t) in
        let done =
          merge-free free
          ∙ set_following_previous-relink larger offset previous (end_of offset b) (joined b c) bs
              sound' grown-Headed behind in
        subst (λ r. Kept a r offset previous (joined b c ∷ bs)) (sym done)
          (record {
            only_memory = refl;
            tiled =
                cons
                  (Headed-frame (λ x le lt. relink-below bs grown offset _ x (omega arith))
                    grown-Headed)
                  (relink-Tiled offset behind);
            below = λ x lt. relink-below bs grown offset _ x (omega arith) ∙ grown-else x lt;
          })

unchanged :
    (a r : Arena) (offset previous : ℕ) (bs : List Block)
    → r ≡ a
    → Tiled a.memory a.capacity offset previous bs
    → Kept a r offset previous bs
unchanged a r offset previous bs same t =
    subst (λ z. Kept a z offset previous bs) (sym same)
      (record { only_memory = refl; tiled = t; below = λ x lt. refl })

join-used : (b c : Block) (bs : List Block) → c.used ≡ true → join b (c ∷ bs) ≡ b ∷ c ∷ bs
unfolding join
join-used b c bs used = choose c.used used
  where
    choose : (u : Bool) → u ≡ true → (if u then b ∷ c ∷ bs else joined b c ∷ bs) ≡ b ∷ c ∷ bs
    choose u e = rw e refl

join-free : (b c : Block) (bs : List Block) → c.used ≡ false → join b (c ∷ bs) ≡ joined b c ∷ bs
unfolding join
join-free b c bs free = choose c.used free
  where
    choose : (u : Bool) → u ≡ false → (if u then b ∷ c ∷ bs else joined b c ∷ bs) ≡ joined b c ∷ bs
    choose u e = rw e refl

-- MergeWithNext takes in the block behind when that is free.
pub merge_with_next-Kept :
    (a : Arena) (offset previous : ℕ) (b : Block) (bs : List Block)
    → Sound a
    → Tiled a.memory a.capacity offset previous (b ∷ bs)
    → Kept a (merge_with_next a offset) offset previous (join b bs)
unfolding join
merge_with_next-Kept a offset previous b [] sound (cons h (nil e)) =
    unchanged a _ offset previous (b ∷ []) (merge-last a offset previous b sound h e)
      (cons h (nil e))
merge_with_next-Kept a offset previous b (c ∷ bs) sound (cons h (cons g t)) =
    elim (Bool-cases c.used) [
      | inl used ↦
          subst (Kept a (merge_with_next a offset) offset previous) (sym (join-used b c bs used)) (
            unchanged a _ offset previous (b ∷ c ∷ bs)
              (merge-used a offset previous b c bs sound h g t used) (cons h (cons g t)))
      | inr free ↦
          subst (Kept a (merge_with_next a offset) offset previous) (sym (join-free b c bs free))
            (merge-Kept a offset previous b c bs sound h g t free)
    ]
