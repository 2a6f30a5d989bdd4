-- ===== src/Log/Supply.antt =====
-- The chunks that a log can get, and the next of them that it takes.
use mathlib.Core.Logic.{inl, inr, ◌⊎◌}
use pmalloc.Prelude.{
  ℕ, ◌+◌, ◌%◌, ◌<◌, ◌≤◌, ◌≡◌, refl, Bool, true, false, ◌==◌, ==_self, leb, some, List, [], ◌∷◌,
  arith, subst,
}
use pmalloc.Log.{Vlog, ChunkTree, listed, next_chunk, Distinct, log_file_size}
use pmalloc.Log.Live.{IsLog}

List-cases : (xs : List ℕ) → (xs ≡ []) ⊎ ((c : ℕ) × (cs : List ℕ) × (xs ≡ c ∷ cs))
List-cases [] = inl refl
List-cases (c ∷ cs) = inr (c, cs, refl)

-- What holds of the chunks that a log can still get.
pub record IsSupply {T : Type 0} (tree : ChunkTree T) (vlog : Vlog T) : Type 0 where
  pub in_tree :
      (c : ℕ) → tree.search c vlog.vlchunk_tree ≡ true → c < vlog.log_file_addr + vlog.log_file_used
  pub in_free :
      (c : ℕ)
      → listed c vlog.global_free_list ≡ true
      → (tree.search c vlog.vlchunk_tree ≡ false)
        × (c % 1024 ≡ 0)
        × (c < vlog.log_file_addr + vlog.log_file_used)
  pub distinct : Distinct vlog.global_free_list
  pub addr_aligned : vlog.log_file_addr % 1024 ≡ 0
  pub used_aligned : vlog.log_file_used % 1024 ≡ 0

-- A chunk in use that is neither in the tree of the log nor free belongs to another log.
pub record IsForeign {T : Type 0} (tree : ChunkTree T) (vlog : Vlog T) (d : ℕ) : Type 0 where
  pub out : tree.search d vlog.vlchunk_tree ≡ false
  pub not_free : listed d vlog.global_free_list ≡ false
  pub below : d < vlog.log_file_addr + vlog.log_file_used

-- Such chunks stay as they are.
abbrev pub Spares : {T : Type 0} → ChunkTree T → Vlog T → Vlog T → Type 0
Spares tree before after =
    (d : ℕ)
    → IsForeign tree before d
    → IsForeign tree after d
      × (after.lchunks d ≡ before.lchunks d)
      × (after.vlchunks d ≡ before.vlchunks d)

-- What `next_chunk` gives: a chunk that is not in the tree, and the free list and the use of the
-- file after it.
pub record NextChunk {T : Type 0} (tree : ChunkTree T) (vlog : Vlog T) : Type 0 where
  pub chunk : ℕ
  pub free_list : List ℕ
  pub used : ℕ
  pub result :
      next_chunk vlog
      ≡ some (chunk, record vlog { global_free_list = free_list; log_file_used = used })
  pub is_new : tree.search chunk vlog.vlchunk_tree ≡ false
  pub aligned : chunk % 1024 ≡ 0
  pub used_aligned : used % 1024 ≡ 0
  pub below : chunk < vlog.log_file_addr + used
  pub grows : vlog.log_file_used ≤ used
  pub bound : used ≤ vlog.log_file_used + 1024
  pub not_free : listed chunk free_list ≡ false
  pub still_free : (c : ℕ) → listed c free_list ≡ true → listed c vlog.global_free_list ≡ true
  pub distinct : Distinct free_list
  pub apart :
      (d : ℕ)
      → listed d vlog.global_free_list ≡ false
      → d < vlog.log_file_addr + vlog.log_file_used
      → (chunk == d) ≡ false

module _ {T : Type 0} (tree : ChunkTree T) where
  pub IsLog-IsSupply : (vlog : Vlog T) → IsLog tree vlog → IsSupply tree vlog
  IsLog-IsSupply vlog v = record {
    in_tree = λ c e. (v.in_tree c e).1;
    in_free = v.in_free;
    distinct = v.distinct;
    addr_aligned = v.addr_aligned;
    used_aligned = v.used_aligned;
  }

  pub next_chunk_lem :
      (vlog : Vlog T)
      → IsSupply tree vlog
      → vlog.log_file_used + 1024 < log_file_size
      → NextChunk tree vlog
  unfolding next_chunk listed
  next_chunk_lem vlog v room = elim (List-cases vlog.global_free_list) [
    | inl e ↦
        let within : leb log_file_size (vlog.log_file_used + 1024) ≡ false = ground arith in
        record {
          chunk = vlog.log_file_addr + vlog.log_file_used;
          free_list = [];
          used = vlog.log_file_used + 1024;
          result = rw (next_chunk, e, within) (rw e refl);
          is_new =
              behind (tree.search (vlog.log_file_addr + vlog.log_file_used) vlog.vlchunk_tree) refl;
          aligned = omega (arith, v.addr_aligned, v.used_aligned);
          used_aligned = omega (arith, v.used_aligned);
          below = omega arith;
          grows = omega arith;
          bound = omega arith;
          not_free = refl;
          still_free = λ c k. absurd (ground (arith, k));
          distinct = tt;
          apart = λ d k l. ground arith;
        }
    | inr (c, cs, e) ↦
        let (is_new, aligned, below) = v.in_free c (rw (e, listed, ==_self c) refl) in
        let (not_free, distinct) = subst Distinct e v.distinct in
        record {
          chunk = c;
          free_list = cs;
          used = vlog.log_file_used;
          result = rw (next_chunk, e) refl;
          is_new = is_new;
          aligned = aligned;
          used_aligned = v.used_aligned;
          below = below;
          grows = omega arith;
          bound = omega arith;
          not_free = not_free;
          still_free = λ d k. rw (e, listed) (ground (arith, k));
          distinct = distinct;
          apart = λ d k l. ground (arith, head_ne c cs d (subst (λ xs. listed d xs ≡ false) e k));
        }
  ]
    where
      behind :
          (b : Bool)
          → tree.search (vlog.log_file_addr + vlog.log_file_used) vlog.vlchunk_tree ≡ b
          → tree.search (vlog.log_file_addr + vlog.log_file_used) vlog.vlchunk_tree ≡ false
      behind false e = e
      behind true e = absurd (omega (arith, v.in_tree _ e))

      head_ne : (c : ℕ) (cs : List ℕ) (d : ℕ) → listed d (c ∷ cs) ≡ false → (c == d) ≡ false
      head_ne c cs d k = ground (arith, k)
