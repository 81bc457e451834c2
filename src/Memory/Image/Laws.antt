-- ===== src/Memory/Image/Laws.antt =====
-- A program that is loaded stands in the memory.
use simple_cpu.Base.{
  ℕ, suc, ◌+◌, ◌*◌, ◌<◌, ◌^◌, ◌≡◌, refl, arith, some, >>=-eq-some, List, [], ◌∷◌, update, ◌∙◌, ap,
  lt→ltb,
}
use simple_cpu.Memory.{
  Region, Store, Place, locate, store_word, put_bytes, mem_read_32, mem_write_32,
}
use simple_cpu.Memory.Laws.{
  IsBytes, IsMapped, Apart, mem_write_32-IsBytes, read-write, read-write-Apart,
}
use simple_cpu.Memory.Image.{fill_regions, load_words}

-- The number of addresses that a file of words uses up.
abbrev pub paired : List ℕ → List ℕ → ℕ
paired words [] = 0
paired [] (_ ∷ _) = 0
paired (_ ∷ words) (_ ∷ pcs) = suc (paired words pcs)

pub fill_regions-IsBytes :
    (rs : List Region) (i : ℕ) (m : Store) → IsBytes m → IsBytes (fill_regions rs i m)
unfolding fill_regions
fill_regions-IsBytes [] i m b = b
fill_regions-IsBytes (r ∷ rs) i m b =
    fill_regions-IsBytes rs (suc i) _ (λ k o. ground (arith, b k o))

module _ (rs : List Region) where
  -- No word of the program shares a byte with the word at `a`.
  abbrev pub AllApart : ℕ → List ℕ → Type 0
  AllApart a [] = Unit
  AllApart a (pc ∷ pcs) = Apart rs a pc × AllApart a pcs

  -- The four bytes at the address lie in the block of the region found for it.
  abbrev pub HasRoom : ℕ → Type 0
  HasRoom a = (p : Place) × (locate rs 0 a ≡ some p) × (p.offset + 3 < p.size)

  -- A program of words at addresses with room for them, which do not overlap.
  abbrev pub IsLayout : List ℕ → List ℕ → Type 0
  IsLayout [] pcs = Unit
  IsLayout (_ ∷ words) [] = Unit
  IsLayout (w ∷ words) (pc ∷ pcs) = (w < 2 ^ 32) × HasRoom pc × AllApart pc pcs × IsLayout words pcs

  no-IsLayout : (words : List ℕ) → IsLayout words []
  no-IsLayout [] = tt
  no-IsLayout (_ ∷ words) = tt

  -- Every word of the program stands at its address.
  abbrev pub IsLoaded : Store → List ℕ → List ℕ → Type 0
  IsLoaded m [] pcs = Unit
  IsLoaded m (_ ∷ words) [] = Unit
  IsLoaded m (w ∷ words) (pc ∷ pcs) = (mem_read_32 rs m pc ≡ some w) × IsLoaded m words pcs

  load_words-apart :
      (words pcs : List ℕ) (ii : ℕ) (m : Store) (n : ℕ) (m' : Store) (a : ℕ)
      → IsBytes m
      → AllApart a pcs
      → load_words rs words pcs ii m ≡ some (n, m')
      → mem_read_32 rs m' a ≡ mem_read_32 rs m a
  unfolding load_words
  load_words-apart [] pcs ii m n m' a b h e = ground arith
  load_words-apart (w ∷ words) [] ii m n m' a b h e = load_words-apart words [] ii m n m' a b h e
  load_words-apart (w ∷ words) (pc ∷ pcs) ii m n m' a b h e =
      let (t, te, re) = >>=-eq-some (mem_write_32 rs m pc w) _ e in
      let later =
        load_words-apart words pcs (ii + 4) t n m' a (mem_write_32-IsBytes rs m t pc w b te) h.1
          re in
      let apart : Apart rs pc a = ground (arith, h.0) in
      later ∙ read-write-Apart rs m t pc w b te a apart

  store : (m : Store) (a v : ℕ) → HasRoom a → (m' : Store) × (mem_write_32 rs m a v ≡ some m')
  unfolding mem_write_32 store_word
  store m a v (p, at, fits) = (
    update m p.region (put_bytes (m p.region) p.offset v),
    rw (at, mem_write_32) (rw (lt→ltb _ _ fits) refl),
  )

  HasRoom-IsMapped : (a : ℕ) → HasRoom a → IsMapped rs a
  HasRoom-IsMapped a (p, at, fits) e = ground (arith, at, e)

  -- The reading loop of `load_program`, for words below 2 ^ 32 at addresses that have room in
  -- their regions and do not overlap: it succeeds, counts 4 for each word that has an address,
  -- keeps the store one of bytes, and every word reads back from its address.
  pub load_words-IsLoaded :
      (words pcs : List ℕ) (ii : ℕ) (m : Store)
      → IsBytes m
      → IsLayout words pcs
      → (m' : Store) × (load_words rs words pcs ii m ≡ some (ii + 4 * paired words pcs, m'))
        × IsBytes m'
        × IsLoaded m' words pcs
  unfolding load_words
  load_words-IsLoaded [] [] ii m b h = (m, ground arith, b, tt)
  load_words-IsLoaded [] (_ ∷ _) ii m b h = (m, ground arith, b, tt)
  load_words-IsLoaded (w ∷ words) [] ii m b h =
      let (m', e, bytes, _) = load_words-IsLoaded words [] ii m b (no-IsLayout words) in
      (m', e, bytes, tt)
  load_words-IsLoaded (w ∷ words) (pc ∷ pcs) ii m b h =
      let (t, te) = store m pc w h.1 in
      let bytes = mem_write_32-IsBytes rs m t pc w b te in
      let (m', e, bytes', later) = load_words-IsLoaded words pcs (ii + 4) t bytes h.3 in
      let here =
        load_words-apart words pcs (ii + 4) t _ m' pc bytes h.2 e
        ∙ read-write rs m t pc w b te h.0 (HasRoom-IsMapped pc h.1) in
      (m', rw te (e ∙ ap (λ (k : ℕ). some (k, m')) (omega arith)), bytes', (here, later))
