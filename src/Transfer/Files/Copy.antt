-- ===== src/Transfer/Files/Copy.antt =====
-- What a chunk write does to the bytes of a file, one byte at a time.
use zao_p2p.Prelude.{
  ℕ, ◌+◌, ◌-◌, ◌*◌, ◌/◌, ◌^◌, ◌≤◌, ◌<◌, ◌≡◌, refl, ◌∙◌, [], ◌∷◌, ◌++◌, arith, ltb, ◌==◌,
  if◌then◌else◌, min, length, length-append, length-take, length-drop, take, drop, replicate,
  get_or, get_or-append, get_or-take, get_or-drop,
}
use zao_p2p.Prelude.Bytes.{Bytes}
use zao_p2p.Transfer.{chunk_size, chunk_len, div_ceil}
use zao_p2p.Transfer.Files.{read_chunk, write_at, chunk_offset}

-- A write that stays within the file.
write_at_within :
    (file : Bytes) (offset b : ℕ) (bs : Bytes)
    → offset + length (b ∷ bs) ≤ length file
    → write_at file offset (b ∷ bs)
      ≡ take offset file ++ ((b ∷ bs) ++ drop (offset + length (b ∷ bs)) file)
unfolding write_at replicate
write_at_within file offset b bs h =
    let no_gap : offset - length file ≡ 0 = omega arith in rw no_gap

length-write_at :
    (file : Bytes) (offset : ℕ) (bs : Bytes)
    → offset + length bs ≤ length file
    → length (write_at file offset bs) ≡ length file
length-write_at file offset [] h = unfold write_at in refl
length-write_at file offset (b ∷ bs) h =
    rw (write_at_within file offset b bs h, length-append, length-append, length-take, length-drop)
      (omega arith)

get_or-write_at :
    (file : Bytes) (offset : ℕ) (bs : Bytes) (j : ℕ)
    → offset + length bs ≤ length file
    → get_or (write_at file offset bs) j 0 ≡ (
        if ltb j offset
        then get_or file j 0
        else if ltb j (offset + length bs)
        then get_or bs (j - offset) 0
        else get_or file j 0)
get_or-write_at file offset [] j h = unfold write_at in ground arith
get_or-write_at file offset (b ∷ bs) j h = rw (write_at_within file offset b bs h) (
    ground (
      arith,
      get_or-append (take offset file) ((b ∷ bs) ++ drop (offset + length (b ∷ bs)) file) j 0,
      get_or-append (b ∷ bs) (drop (offset + length (b ∷ bs)) file) (j - offset) 0,
      get_or-take offset file j 0,
      get_or-drop (offset + length (b ∷ bs)) file (j - offset - length (b ∷ bs)) 0,
      length-take offset file,
    ))

pub chunk_starts_inside : (total i : ℕ) → i < div_ceil total chunk_size → i * chunk_size < total
unfolding div_ceil
chunk_starts_inside total i h = ground arith

module _ (src : Bytes) (i : ℕ) (small : length src < 2 ^ 64)
    (inside : i * chunk_size < length src) where
  pub length-read_chunk : length (read_chunk src i) ≡ chunk_len (length src) i
  unfolding read_chunk chunk_len
  length-read_chunk =
      let exact : chunk_offset i ≡ i * chunk_size = omega arith in
      rw exact (rw (length-take, length-drop) (omega arith))

  get_or-read_chunk :
      (j : ℕ)
      → j < chunk_len (length src) i
      → get_or (read_chunk src i) j 0 ≡ get_or src (i * chunk_size + j) 0
  unfolding read_chunk chunk_len
  get_or-read_chunk j h =
      let exact : chunk_offset i ≡ i * chunk_size = omega arith in
      rw exact (
        ground (
          arith,
          get_or-take (min (length src - i * chunk_size) chunk_size) (drop (i * chunk_size) src) j
              0,
          get_or-drop (i * chunk_size) src j 0,
        ))

-- Writing the chunk `i` of `src` where it belongs: its bytes become those of `src`, the others
-- stay.
pub get_or-copy_chunk :
    (src file : Bytes) (i j : ℕ)
    → length src < 2 ^ 64
    → i * chunk_size < length src
    → length file ≡ length src
    → j < length src
    → get_or (write_at file (chunk_offset i) (read_chunk src i)) j 0
      ≡ (if j / chunk_size == i then get_or src j 0 else get_or file j 0)
unfolding chunk_len
get_or-copy_chunk src file i j small inside same lt =
    let exact : chunk_offset i ≡ i * chunk_size = omega arith in
    rw exact (
      ground (
        arith,
        length-read_chunk src i small inside,
        get_or-write_at file (i * chunk_size) (read_chunk src i) j,
        get_or-read_chunk src i small inside (j - i * chunk_size),
      ))

pub length-copy_chunk :
    (src file : Bytes) (i : ℕ)
    → length src < 2 ^ 64
    → i * chunk_size < length src
    → length file ≡ length src
    → length (write_at file (chunk_offset i) (read_chunk src i)) ≡ length src
unfolding chunk_len
length-copy_chunk src file i small inside same =
    let exact : chunk_offset i ≡ i * chunk_size = omega arith in
    rw exact (
      length-write_at file (i * chunk_size) (read_chunk src i)
        (omega (arith, length-read_chunk src i small inside))
      ∙ same)
