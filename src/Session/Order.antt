-- ===== src/Session/Order.antt =====
-- The chunks of a session, listed by their index.
use cloud_drive.Prelude.{
  ℕ, ◌≤◌, ◌≡◌, refl, List, [], ◌∷◌, map, mem, All, arith, leb, inl, inr, Bool-cases,
}
use cloud_drive.Model.{UploadChunk}
use cloud_drive.Session.{insert_by_index, by_index}

abbrev pub indexes : List UploadChunk → List ℕ
indexes chunks = map (λ c. c.chunk_index) chunks

-- Each index is at most the later ones.
abbrev pub IsOrdered : List UploadChunk → Type 0
IsOrdered [] = Unit
IsOrdered (c ∷ chunks) = All (λ d. c.chunk_index ≤ d.chunk_index) chunks × IsOrdered chunks

All-insert_by_index :
    (P : UploadChunk → Type 0) (c : UploadChunk) (chunks : List UploadChunk)
    → P c
    → All P chunks
    → All P (insert_by_index c chunks)
unfolding insert_by_index
All-insert_by_index P c [] h k = (h, tt)
All-insert_by_index P c (d ∷ chunks) h k = elim (Bool-cases (leb c.chunk_index d.chunk_index)) [
  | inl e ↦ rw e (h, k)
  | inr e ↦ rw e (k.0, All-insert_by_index P c chunks h k.1)
]

All-le :
    (n m : ℕ) (chunks : List UploadChunk)
    → n ≤ m
    → All (λ d. m ≤ d.chunk_index) chunks
    → All (λ d. n ≤ d.chunk_index) chunks
All-le n m [] h k = tt
All-le n m (d ∷ chunks) h k = (omega (arith, h, k.0), All-le n m chunks h k.1)

insert_by_index-IsOrdered :
    (c : UploadChunk) (chunks : List UploadChunk)
    → IsOrdered chunks
    → IsOrdered (insert_by_index c chunks)
unfolding insert_by_index
insert_by_index-IsOrdered c [] h = (tt, tt)
insert_by_index-IsOrdered c (d ∷ chunks) h = elim (Bool-cases (leb c.chunk_index d.chunk_index)) [
  | inl e ↦
      let le : c.chunk_index ≤ d.chunk_index = ground arith in
      rw e ((le, All-le c.chunk_index d.chunk_index chunks le h.0), h)
  | inr e ↦ rw e (
    All-insert_by_index (λ x. d.chunk_index ≤ x.chunk_index) c chunks (ground arith) h.0,
    insert_by_index-IsOrdered c chunks h.1,
  )
]

pub by_index-IsOrdered : (chunks : List UploadChunk) → IsOrdered (by_index chunks)
unfolding by_index
by_index-IsOrdered [] = tt
by_index-IsOrdered (c ∷ chunks) =
    insert_by_index-IsOrdered c (by_index chunks) (by_index-IsOrdered chunks)

mem-insert_by_index :
    (j : ℕ) (c : UploadChunk) (chunks : List UploadChunk)
    → mem j (indexes (insert_by_index c chunks)) ≡ mem j (indexes (c ∷ chunks))
unfolding insert_by_index mem
mem-insert_by_index j c [] = refl
mem-insert_by_index j c (d ∷ chunks) = ground (arith, mem-insert_by_index j c chunks)

pub mem-by_index :
    (j : ℕ) (chunks : List UploadChunk) → mem j (indexes (by_index chunks)) ≡ mem j (indexes chunks)
unfolding by_index mem
mem-by_index j [] = refl
mem-by_index j (c ∷ chunks) =
    ground (arith, mem-insert_by_index j c (by_index chunks), mem-by_index j chunks)
