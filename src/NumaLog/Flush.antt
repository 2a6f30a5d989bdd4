-- ===== src/NumaLog/Flush.antt =====
-- Which arenas a flush of a NUMA log wakes.
use mathlib.Core.Logic.{inl, inr}
use pmalloc.Prelude.{
  ℕ, zero, suc, ◌+◌, ◌-◌, ◌/◌, ◌%◌, ◌^◌, ◌<◌, ◌≤◌, ◌≡◌, refl, ◌∙◌, true, false, ◌&&◌, ◌||◌, ◌==◌,
  leb, List, [], ◌∷◌, ◌++◌, get_or, arith, Bool-cases, ℕ-cases,
}
use pmalloc.Word.{test_bit, ffs, clear_lowest}
use pmalloc.Word.Bit.{test_bit_high, test_bit-zero}
use pmalloc.Word.Lowest.{ffs-IsLowest, ffs_pos, test_bit-clear_lowest}
use pmalloc.Word.Bounds.{clear_lowest-lt}
use pmalloc.Bitmap.{is_free}
use pmalloc.Bitmap.Laws.{IsWords}
use pmalloc.Log.{listed}
use pmalloc.Log.Collect.{listed-append}
use pmalloc.NumaLog.{NumaLog, post_word, post_words, all_clear, numa_log_flush}

ffs-eq_zero : (w j : ℕ) → w < 2 ^ 64 → ffs 64 w ≡ 0 → test_bit w j ≡ false
ffs-eq_zero w j h e = elim (Bool-cases (w == 0)) [
  | inl none_set ↦ let z : w ≡ 0 = ground arith in rw z (test_bit-zero j)
  | inr some_set ↦ absurd (omega (arith, ffs_pos 64 w h (ground arith)))
]

-- The bits of `w` below `b` are clear, and there is fuel for the others.
post_word-listed :
    (fuel b i w a : ℕ)
    → w < 2 ^ 64
    → 64 ≤ fuel + b
    → ((j : ℕ) → j < b → test_bit w j ≡ false)
    → listed a (post_word fuel i w) ≡ (a / 64 == i && test_bit w (a % 64))
unfolding post_word listed
post_word-listed zero b i w a h enough low = ground (arith, low (a % 64))
post_word-listed (suc fuel) b i w a h enough low = elim (ℕ-cases (ffs 64 w)) [
  | inl e ↦ rw (post_word, e) (ground (arith, ffs-eq_zero w (a % 64) h e))
  | inr (k, e) ↦
      let l = ffs-IsLowest 64 w k e in
      let k_lt : k < 64 = small k l.is_set in
      let up : b ≤ k = above k l.is_set in
      let rest =
        post_word-listed fuel (suc k) i (clear_lowest 64 w) a (clear_lowest-lt 64 w h) (omega arith)
          (λ j p. ground (arith, test_bit-clear_lowest 64 w k j h e, l.below j)) in
      rw (post_word, e, rest) (ground (arith, test_bit-clear_lowest 64 w k (a % 64) h e, l.is_set))
]
  where
    small : (k : ℕ) → test_bit w k ≡ true → k < 64
    small k e = elim (Bool-cases (leb 64 k)) [
      | inl high ↦ absurd (ground (arith, test_bit_high 64 w k h, e))
      | inr fits ↦ ground arith
    ]

    above : (k : ℕ) → test_bit w k ≡ true → b ≤ k
    above k e = elim (Bool-cases (leb b k)) [
      | inl fine ↦ ground arith
      | inr less ↦ absurd (ground (arith, low k, e))
    ]

word_of :
    (i q r w : ℕ) (ws : List ℕ)
    → ((q == i && test_bit w r) || (leb (i + 1) q && test_bit (get_or ws (q - (i + 1)) 0) r))
      ≡ (leb i q && test_bit (get_or (w ∷ ws) (q - i) 0) r)
word_of i q r w ws = elim (ℕ-cases (q - i)) [
  | inl e ↦ rw e (ground arith)
  | inr (k, e) ↦ let e' : q - (i + 1) ≡ k = omega arith in rw (e, e') (ground arith)
]

post_words-listed :
    (i a : ℕ) (ws : List ℕ)
    → IsWords ws
    → listed a (post_words i ws) ≡ (leb i (a / 64) && test_bit (get_or ws (a / 64 - i) 0) (a % 64))
unfolding post_words
post_words-listed i a [] h = unfold listed in ground (arith, test_bit-zero (a % 64))
post_words-listed i a (w ∷ ws) h =
    rw
      (
        listed-append a (post_word 64 i w) (post_words (i + 1) ws),
        post_word-listed 64 0 i w a h.0 (omega arith) (λ j p. absurd (omega arith)),
        post_words-listed (i + 1) a ws h.1,
      )
      (word_of i (a / 64) (a % 64) w ws)

all_clear-get_or : (ws : List ℕ) (k : ℕ) → get_or (all_clear ws) k 0 ≡ 0
unfolding all_clear
all_clear-get_or [] k = refl
all_clear-get_or (w ∷ ws) zero = refl
all_clear-get_or (w ∷ ws) (suc k) = all_clear-get_or ws k

-- A flush of a log with 64-bit words for its arenas posts the semaphores of exactly the arenas
-- whose bit is set, behind what was posted before, and no bit is set after it.
pub numa_log_flush-posts :
    (nl : NumaLog)
    → IsWords nl.arenas_used
    → (posted : List ℕ) × ((numa_log_flush nl).posts ≡ nl.posts ++ posted)
      × ((a : ℕ) → listed a posted ≡ is_free nl.arenas_used a)
      × ((a : ℕ) → is_free (numa_log_flush nl).arenas_used a ≡ false)
unfolding numa_log_flush is_free
numa_log_flush-posts nl h = (
  post_words 0 nl.arenas_used,
  refl,
  λ a. post_words-listed 0 a nl.arenas_used h ∙ ground arith,
  λ a. rw (all_clear-get_or nl.arenas_used (a / 64)) (test_bit-zero (a % 64)),
)
