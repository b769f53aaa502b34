-- ===== src/As88/Relax/Replay.antt =====
-- Pass 2 replays what pass 1 has recorded.
use sdcc.Common.{
  ℕ, zero, suc, ◌-◌, ◌/◌, ◌%◌, ◌≤◌, ◌<◌, ◌≡◌, ◌⊎◌, inl, inr, refl, ◌∙◌, ap, List, [], ◌∷◌, arith,
  length, get_or-replicate, digit-zero, length-replicate,
}
use sdcc.As88.Relax.Steps.{
  sites, bit_at, StandsAt, setbit_inside, setbit_behind, getbit_behind, getbit_inside,
}
use sdcc.As88.Relax.{nb, BitTable, fresh, setbit, getbit, minit, choices}

-- What `setbit` answers, one decision after the other, and what `getbit` answers.
unfoldable record_all : BitTable → List ℕ → BitTable × List ℕ
record_all t [] = (t, [])
record_all t (b ∷ bs) =
    let (t', f) = setbit t b in let (last, fs) = record_all t' bs in (last, f ∷ fs)

unfoldable replay : BitTable → ℕ → List ℕ
replay t zero = []
replay t (suc n) = let (t', f) = getbit t in f ∷ replay t' n

-- A decision is 0 or 1.
abbrev pub AllBits : List ℕ → Type 0
AllBits [] = Unit
AllBits (b ∷ bs) = (b < 2) × AllBits bs

-- The first `n` decisions as they are, and 1, for long, behind them.
abbrev pub long_behind : ℕ → List ℕ → List ℕ
long_behind n [] = []
long_behind zero (b ∷ bs) = 1 ∷ long_behind zero bs
long_behind (suc n) (b ∷ bs) = b ∷ long_behind n bs

room : (n : ℕ) → n ≤ sites → (n < sites) ⊎ (n ≡ sites)
room n h = ground arith

-- A table in which nothing is recorded from place `n` on.
abbrev IsClearFrom : ℕ → List ℕ → Type 0
IsClearFrom n bb = (j : ℕ) → n ≤ j → bit_at bb j ≡ 0

-- Recording changes nothing in front of where it starts.
record_all_before :
    (bs : List ℕ) (n : ℕ) (t : BitTable)
    → AllBits bs
    → StandsAt n t
    → IsClearFrom n t.bb
    → n ≤ sites
    → (length (record_all t bs).0.bb ≡ nb)
      × ((j : ℕ) → j < n → bit_at (record_all t bs).0.bb j ≡ bit_at t.bb j)
unfolding record_all
record_all_before [] n t ok (l, p, m) clear h = (l, λ j e. refl)
record_all_before (b ∷ bs) n t (hb, ok) s clear h = elim (room n h) [
  | inl inside ↦
      let (s', here, others, f) = setbit_inside n t b hb s inside (clear n (omega arith)) in
      let (l, before) =
        record_all_before bs (suc n) (setbit t b).0 ok s'
          (λ j e. others j (ground arith) ∙ clear j (omega arith)) inside in
      (l, λ j e. before j (omega arith) ∙ others j (ground arith))
  | inr full ↦
      let kept = setbit_behind n t b s (omega arith) in
      rw (record_all, kept) (record_all_before bs n t ok s clear h)
]

-- What the reader `r` replays from where the recording of the table started is what was answered.
replay-record_all :
    (bs : List ℕ) (n : ℕ) (t r : BitTable)
    → AllBits bs
    → StandsAt n t
    → IsClearFrom n t.bb
    → n ≤ sites
    → StandsAt n r
    → r.bb ≡ (record_all t bs).0.bb
    → (replay r (length bs) ≡ (record_all t bs).1)
      × ((record_all t bs).1 ≡ long_behind (sites - n) bs)
unfolding record_all replay
replay-record_all [] n t r ok s clear h sr same = (refl, refl)
replay-record_all (b ∷ bs) n t r (hb, ok) s clear h sr same = elim (room n h) [
  | inl inside ↦
      let (s', here, others, f) = setbit_inside n t b hb s inside (clear n (omega arith)) in
      let clear' : IsClearFrom (suc n) (setbit t b).0.bb =
        λ j e. others j (ground arith) ∙ clear j (omega arith) in
      let (l, before) = record_all_before bs (suc n) (setbit t b).0 ok s' clear' inside in
      let (sr', kept, g) = getbit_inside n r sr inside in
      let (again, taken) =
        replay-record_all bs (suc n) (setbit t b).0 (getbit r).0 ok s' clear' inside sr'
          (kept ∙ same) in
      let read : bit_at r.bb n ≡ b = ap (λ bb. bit_at bb n) same ∙ before n (omega arith) ∙ here in
      let left : sites - n ≡ suc (sites - suc n) = omega arith in
      (rw (g, read, f) (ap (λ fs. b ∷ fs) again), rw (left, f) (ap (λ fs. b ∷ fs) taken))
  | inr full ↦
      let stays = setbit_behind n t b s (omega arith) in
      let stopped = getbit_behind n r sr (omega arith) in
      let none_left : sites - n ≡ 0 = omega arith in
      let same' : r.bb ≡ (record_all t bs).0.bb = rw stays at same in
      let (again, taken) = replay-record_all bs n t r ok s clear h sr same' in
      let long : (record_all t bs).1 ≡ long_behind 0 bs = rw none_left at taken in
      rw (stays, stopped, none_left) (ap (λ fs. 1 ∷ fs) again, ap (λ fs. 1 ∷ fs) long)
]

pass1 : (t : BitTable) (bs : List ℕ) → choices 1 t bs ≡ ((record_all t bs).0, bs)
unfolding choices record_all
pass1 t [] = refl
pass1 t (b ∷ bs) = let ih = pass1 (setbit t b).0 bs in rw (choices, ih) refl

pass2 : (t : BitTable) (cs : List ℕ) → (choices 2 t cs).1 ≡ replay t (length cs)
unfolding choices replay
pass2 t [] = refl
pass2 t (c ∷ cs) = ap (λ fs. (getbit t).1 ∷ fs) (pass2 (getbit t).0 cs)

-- From an empty table, pass 1 chooses by its decisions, and pass 2 chooses the same for the first 16384
-- branches, and long for all behind them, whatever it computes itself.
pub relaxation_replayed :
    (bs cs : List ℕ)
    → AllBits bs
    → length cs ≡ length bs
    → ((choices 1 (minit fresh) bs).1 ≡ bs)
      × ((choices 2 (minit (choices 1 (minit fresh) bs).0) cs).1 ≡ long_behind sites bs)
unfolding minit
relaxation_replayed bs cs ok same =
    let start = minit fresh in
    let at_start : StandsAt 0 start = (length-replicate {A = ℕ} nb 0, refl, refl) in
    let clear : IsClearFrom 0 start.bb =
      λ j e. rw (get_or-replicate {A = ℕ} nb (j / 32) 0) (digit-zero (j % 32)) in
    let (l, before) = record_all_before bs 0 start ok at_start clear (omega arith) in
    let (again, taken) =
      replay-record_all bs 0 start (minit (record_all start bs).0) ok at_start clear (omega arith)
        (l, refl, refl) refl in
    (
      ap (λ (p : BitTable × List ℕ). p.1) (pass1 start bs),
      ap (λ (p : BitTable × List ℕ). (choices 2 (minit p.0) cs).1) (pass1 start bs)
          ∙ pass2 (minit (record_all start bs).0) cs
          ∙ ap (λ n. replay (minit (record_all start bs).0) n) same
          ∙ again
          ∙ taken,
    )
