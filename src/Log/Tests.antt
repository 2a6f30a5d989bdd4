-- ===== src/Log/Tests.antt =====
-- Runs of the log code: a tree as a list of addresses, and a log with one item.
use mathlib.Core.Logic.{inl, inr}
use pmalloc.Prelude.{
  ℕ, zero, suc, ◌/◌, ◌%◌, ◌<◌, ◌≡◌, refl, Bool, true, false, List, [], ◌∷◌, arith, if◌then◌else◌,
  ◌==◌, ==_iff, get_or, Bool-cases, subst,
}
use pmalloc.Word.{test_bit}
use pmalloc.Word.Bit.{test_bit-pow, test_bit-zero}
use pmalloc.Bitmap.{is_free}
use pmalloc.Log.{ChunkTree, IsChunkTree, listed, Distinct, Vlog, item_addr}
use pmalloc.Prelude.{some}
use pmalloc.Log.{LogItem}
use pmalloc.Log.Append.{log_create, add_log}
use pmalloc.Log.Live.{live, IsLog}
use pmalloc.Log.Appends.{Appends, add_log-Appends}
use pmalloc.Log.Start.{IsTwoChunks, log_create-IsLog}
use pmalloc.Log.Free.{FreesItem, add_log-FreesItem}
use pmalloc.NumaLog.{NumaLog, numa_log_alloc}
use pmalloc.Log.Tomb.{Tombs, tomb_of, add_tomb, numa_log_extent_flusher}
use pmalloc.Log.Pending.{items_of, pending_in, pending, count, add_tomb-Pends}
use pmalloc.Log.Free.{Buries}
use pmalloc.Log.Slow.{Copying}
use pmalloc.Log.Copied.{kept, length_kept}
use pmalloc.Log.Slow.{slow_gc}
use pmalloc.Log.Round.{Replaces, slow_gc-Replaces}
use pmalloc.Log.Rebuilt.{all_kept, IsCopyable}
use mathlib.Core.List.{append-nil}
use pmalloc.Prelude.{length, ◌≤◌}
use pmalloc.Log.Flush.{AddsAll, numa_log_extent_flusher-AddsAll}

without : ℕ → List ℕ → List ℕ
without c [] = []
without c (x ∷ xs) = if c == x then without c xs else x ∷ without c xs

distinct_list : List ℕ → List ℕ
unfolding without
distinct_list [] = []
distinct_list (x ∷ xs) = x ∷ without x (distinct_list xs)

abbrev list_tree : ChunkTree (List ℕ)
list_tree = record {
  empty = [];
  search = listed;
  insert = λ c xs. c ∷ xs;
  remove = without;
  to_list = distinct_list;
}

listed-without :
    (c d : ℕ) (xs : List ℕ) → listed c (without d xs) ≡ (if d == c then false else listed c xs)
unfolding listed without
listed-without c d [] = ground arith
listed-without c d (x ∷ xs) = ground (arith, listed-without c d xs)

listed-distinct_list : (c : ℕ) (xs : List ℕ) → listed c xs ≡ listed c (distinct_list xs)
unfolding listed distinct_list
listed-distinct_list c [] = refl
listed-distinct_list c (x ∷ xs) =
    ground (arith, listed-without c x (distinct_list xs), listed-distinct_list c xs)

Distinct-without : (c : ℕ) (xs : List ℕ) → Distinct xs → Distinct (without c xs)
unfolding without
Distinct-without c [] h = tt
Distinct-without c (x ∷ xs) h = elim (Bool-cases (c == x)) [
  | inl same ↦ rw same (Distinct-without c xs h.1)
  | inr other ↦ rw other (ground (arith, listed-without x c xs, h.0), Distinct-without c xs h.1)
]

distinct_list-Distinct : (xs : List ℕ) → Distinct (distinct_list xs)
unfolding distinct_list
distinct_list-Distinct [] = tt
distinct_list-Distinct (x ∷ xs) = (
  ground (arith, listed-without x x (distinct_list xs)),
  Distinct-without x (distinct_list xs) (distinct_list-Distinct xs),
)

list_tree-IsChunkTree : IsChunkTree list_tree
unfolding listed
list_tree-IsChunkTree = record {
  search-empty = λ c. refl;
  search-insert = λ c d t. refl;
  search-remove = λ c d t. listed-without c d t;
  search-to_list = listed-distinct_list;
  distinct = distinct_list-Distinct;
}

-- One chunk, at 6144, with an item in its first slot.
abbrev log : Vlog (List ℕ)
log = record {
  lchunks = λ _. record {
    next = 0;
    id = 2;
    items = λ _. record { type = 0; ptr = 65536; size_version_id = 64 };
  };
  vlchunks = λ _. record { count = 1; bitmap = 1 ∷ 0 ∷ []; id = 2; pre_lchunk = 5120 };
  vlchunk_tree = 6144 ∷ [];
  tail_vlchunk = 6144;
  root_lchunk = 5120;
  gc_timer = 9999;
  global_lchunk_id = 3;
  global_free_list = [];
  log_file_addr = 4096;
  log_file_used = 3072;
  num_of_chunks = 2;
  num_of_items = 1;
  gc_posts = 0;
}

one_bit : (i : ℕ) → is_free (1 ∷ 0 ∷ []) i ≡ true → i ≡ 0
unfolding is_free
one_bit i h = elim (Bool-cases (i / 64 == 0)) [
  | inl low ↦
      let q : i / 64 ≡ 0 = (==_iff (i / 64) 0).0 low in
      ground (
        arith,
        subst (λ w. test_bit (get_or {A = ℕ} (1 ∷ 0 ∷ []) w 0) (i % 64) ≡ true) q h,
        test_bit-pow 0 (i % 64),
      )
  | inr high ↦ absurd (high_word (i / 64) (ground arith) h)
]
  where
    high_word : (k : ℕ) → 0 < k → test_bit (get_or {A = ℕ} (1 ∷ 0 ∷ []) k 0) (i % 64) ≡ true → ⊥
    high_word zero p e = omega arith
    high_word (suc zero) p e = ground (arith, test_bit-zero (i % 64), e)
    high_word (suc (suc k)) p e = ground (arith, test_bit-zero (i % 64), e)

log-IsLog : IsLog list_tree log
unfolding listed
log-IsLog = record {
  tail_in = refl;
  in_tree = λ c e.
      let here : 6144 ≡ c = ground (arith, e) in
      (
        record {
          words = refl;
          slots = λ i h. omega (arith, one_bit i h);
          cap = omega arith;
          aligned = omega arith;
        },
        omega arith,
      );
  in_free = λ c e. absurd (ground (arith, e));
  distinct = tt;
  addr_aligned = refl;
  used_aligned = refl;
}

add_log-Appends_example :
    Appends list_tree
      (record { type = 0; ptr = 131072; size_version_id = 65 })
      log
      (add_log list_tree 0 131072 64 true log)
add_log-Appends_example =
    add_log-Appends list_tree list_tree-IsChunkTree 0 131072 64 true log log-IsLog (omega arith)
      (omega arith)

add_log-FreesItem_example :
    FreesItem list_tree list_tree-IsChunkTree 6144 0 log
      (add_log list_tree 1 (item_addr 6144 0) 0 false log)
unfolding is_free test_bit listed
add_log-FreesItem_example =
    add_log-FreesItem list_tree list_tree-IsChunkTree 6144 0 0 false log log-IsLog refl
      (omega arith) (omega arith) (omega arith) (omega arith)

log_create-IsLog_example :
    (vlog : Vlog (List ℕ)) × (log_create list_tree 4096 log.lchunks log.vlchunks ≡ some vlog)
    × IsLog list_tree vlog
    × ((c i : ℕ) → live list_tree vlog c i ≡ false)
    × IsTwoChunks list_tree vlog
log_create-IsLog_example =
    log_create-IsLog list_tree list_tree-IsChunkTree 4096 log.lchunks log.vlchunks refl

-- A tombstone is pending already.
abbrev tombs_ex : Tombs
tombs_ex = record { head = record { cnt = 1; items = λ _. tomb_of 7184 9 }; next = [] }

abbrev nl_ex : NumaLog
nl_ex = record {
  nle_id = λ _. 0;
  files = λ _ _. record { info = 0; timestamp = 0 };
  turn = 0;
  arenas_used = 0 ∷ [];
  posts = [];
}

add_tomb-Pends_example :
    let tomb = tomb_of (item_addr 6144 0) 2 in
    (after : Vlog (List ℕ)) × (tombs' : Tombs) × (add_tomb list_tree
        (λ x. x.ptr)
        5
        0
        (item_addr 6144 0)
        log
        tombs_ex
        nl_ex
      ≡ some (after, tombs', numa_log_alloc tomb.ptr 5 0 nl_ex))
    × Buries list_tree list_tree-IsChunkTree 6144 0 log after
    × ((test : LogItem → Bool) → count test (pending tombs') ≡ count test (tomb ∷ pending tombs_ex))
unfolding is_free test_bit listed
add_tomb-Pends_example =
    add_tomb-Pends list_tree list_tree-IsChunkTree (λ x. x.ptr) 5 0 6144 0 log tombs_ex nl_ex
      log-IsLog refl (omega arith) (omega arith)

abbrev young_log : Vlog (List ℕ)
young_log = record log { gc_timer = 0 }

young_log-IsLog : IsLog list_tree young_log
young_log-IsLog = record {
  tail_in = log-IsLog.tail_in;
  in_tree = log-IsLog.in_tree;
  in_free = log-IsLog.in_free;
  distinct = log-IsLog.distinct;
  addr_aligned = refl;
  used_aligned = refl;
}

numa_log_extent_flusher-AddsAll_example :
    (tombs' : Tombs) × (after : Vlog (List ℕ)) × (numa_log_extent_flusher list_tree tombs_ex
        young_log
      ≡ some (tombs', after))
    × (pending tombs' ≡ [])
    × IsLog list_tree after
    × AddsAll list_tree list_tree-IsChunkTree (pending tombs_ex) young_log after
unfolding pending pending_in items_of
numa_log_extent_flusher-AddsAll_example =
    numa_log_extent_flusher-AddsAll list_tree list_tree-IsChunkTree tombs_ex young_log
      young_log-IsLog (omega arith) (omega arith)

-- The root chunk at 5120 points to the chunk at 6144, whose item belongs to the extent 65536.
abbrev chained_log : Vlog (List ℕ)
chained_log = record log {
  lchunks = λ c. record {
    next = if c == 5120 then 6144 else 0;
    id = 2;
    items = λ _. record { type = 0; ptr = 65536; size_version_id = 64 };
  };
}

chained_log-IsCopyable :
    IsCopyable list_tree list_tree-IsChunkTree
      (λ x. x.ptr)
      chained_log
      (6144 ∷ [])
      (λ _. item_addr 6144 0)
unfolding listed
chained_log-IsCopyable = record {
  valid = record {
    tail_in = log-IsLog.tail_in;
    in_tree = log-IsLog.in_tree;
    in_free = log-IsLog.in_free;
    distinct = log-IsLog.distinct;
    addr_aligned = refl;
    used_aligned = refl;
  };
  chain = (refl, λ e. omega (arith, e), refl);
  distinct = (refl, tt);
  in_tree = λ d e. e;
  in_chain = λ d e. e;
  root_out = refl;
  root_aligned = refl;
  root_not_free = refl;
  root_below = omega arith;
  owned = λ d k i b h.
      let d_1 : d ≡ 6144 = ground (arith, i) in
      let k_0 : k ≡ 0 = one_bit k (ground (arith, h)) in omega (arith, d_1, k_0);
}

few_kept :
    length (all_kept list_tree list_tree-IsChunkTree (λ x. x.ptr) chained_log (6144 ∷ [])) ≤ 128
unfolding all_kept
few_kept =
    let few = length_kept list_tree list_tree-IsChunkTree (λ x. x.ptr) 128 0 6144 chained_log in
    rw (append-nil (kept list_tree list_tree-IsChunkTree (λ x. x.ptr) 128 0 6144 chained_log)) few

slow_gc-Replaces_example :
    (after : Copying (List ℕ)) × (tombs' : Tombs) × (slow_gc list_tree
        (λ x. x.ptr)
        2
        5
        (λ _. item_addr 6144 0)
        tombs_ex
        chained_log
      ≡ some (after, tombs'))
    × (pending tombs' ≡ [])
    × Replaces list_tree list_tree-IsChunkTree
        (λ x. x.ptr)
        chained_log
        (6144 ∷ [])
        (λ _. item_addr 6144 0)
        after
slow_gc-Replaces_example =
    slow_gc-Replaces list_tree list_tree-IsChunkTree (λ x. x.ptr) chained_log 2 5
      (λ _. item_addr 6144 0) tombs_ex (6144 ∷ []) chained_log-IsCopyable (omega arith)
      (omega (arith, few_kept)) (omega arith) (omega arith)
