-- ===== src/Filesystem/Blocks.antt =====
-- The block buffer of proj04/src/main.c.
use cs.Prelude.{
  drop-drop, ℕ, zero, suc, ◌+◌, ◌-◌, ◌*◌, ◌/◌, ◌%◌, ◌≤◌, ◌≡◌, ◌∙◌, refl, sym, ap, true, false, [],
  ◌∷◌, ◌++◌, length, take, drop, leb, ◌==◌, arith, length-drop, append-nil, ok, if_true,
}
use cs.Filesystem.{
  Bytes, block_size, buffer_read_block, copy_from, buffer_get_inode, s_inode_size, bg_inode_table,
}

length-take_le : (n : ℕ) (bytes : Bytes) → n ≤ length bytes → length (take n bytes) ≡ n
length-take_le zero bytes h = refl
length-take_le (suc n) [] h = absurd (omega arith)
length-take_le (suc n) (b ∷ bytes) h = ap suc (length-take_le n bytes (omega arith))

drop-all : (bytes : Bytes) → drop (length bytes) bytes ≡ []
drop-all [] = refl
drop-all (b ∷ bytes) = drop-all bytes

-- The bytes of a block of the device.
abbrev pub block_of : Bytes → ℕ → Bytes
block_of device n = take block_size (drop (block_size * n) device)

pub fits_test : (n : ℕ) → n ≤ 2147483647 → leb n 2147483647 ≡ true
fits_test n h = ground arith

-- A block that lies within the device, at an offset that is an int, replaces a buffer of one block.
pub buffer_read_block_whole :
    (device buffer : Bytes) (n : ℕ)
    → length buffer ≡ block_size
    → block_size * n + block_size ≤ length device
    → block_size * n ≤ 2147483647
    → (buffer_read_block device buffer n ≡ ok (block_of device n))
      × (length (block_of device n) ≡ block_size)
unfolding buffer_read_block
buffer_read_block_whole device buffer n size inside fits =
    let full : length (block_of device n) ≡ block_size =
      length-take_le block_size (drop (block_size * n) device)
        (omega (arith, length-drop (block_size * n) device)) in
    let test : leb (block_size * n) 2147483647 ≡ true = fits_test (block_size * n) fits in
    let rest : drop (length (block_of device n)) buffer ≡ [] =
      ap (λ k. drop k buffer) (full ∙ sym size) ∙ drop-all buffer in
    (
      if_true _ _ _ _ test (
          ap (λ r. ok (block_of device n ++ r)) rest
          ∙ ap (λ b. ok b) (append-nil (block_of device n))),
      full,
    )

take-take : (k n : ℕ) (bytes : Bytes) → k ≤ n → take k (take n bytes) ≡ take k bytes
take-take zero n bytes h = refl
take-take (suc k) zero bytes h = absurd (omega arith)
take-take (suc k) (suc n) [] h = refl
take-take (suc k) (suc n) (b ∷ bytes) h = ap (λ r. b ∷ r) (take-take k n bytes (omega arith))

take-drop-take :
    (k a n : ℕ) (bytes : Bytes) → a + k ≤ n → take k (drop a (take n bytes)) ≡ take k (drop a bytes)
take-drop-take k zero n bytes h = take-take k n bytes (omega arith)
take-drop-take k (suc a) zero bytes h = absurd (omega arith)
take-drop-take k (suc a) (suc n) [] h = refl
take-drop-take k (suc a) (suc n) (b ∷ bytes) h = take-drop-take k a n bytes (omega arith)

pub room_test : (n : ℕ) → n ≤ 4096 → leb n 4096 ≡ true
room_test n h = ground arith

nonzero_test : (n : ℕ) → (n + 1 == 0) ≡ false
nonzero_test n = ground arith

-- The block and the place in it of an inode of 128 bytes.
place_lem :
    (device : Bytes) (table index : ℕ)
    → take 128 (drop (index % 32 * 128) (block_of device (table + index / 32)))
      ≡ take 128 (drop (4096 * table + 128 * index) device)
place_lem device table index =
    let from : 4096 * (table + index / 32) + index % 32 * 128 ≡ 4096 * table + 128 * index =
      omega arith in
    take-drop-take 128 (index % 32 * 128) 4096 (drop (4096 * (table + index / 32)) device)
      (omega arith)
    ∙ ap (take 128) (sym (drop-drop (4096 * (table + index / 32)) (index % 32 * 128) device))
    ∙ ap (λ n. take 128 (drop n device)) from

-- On a disk with inodes of 128 bytes, the inode of an index from 1 on is the one at its place in the
-- table that starts at the block of the descriptor, if its block lies within the device and at an
-- offset that is an int; and the buffer is left with one block.
pub buffer_get_inode_lem :
    (device superblock descriptor buffer : Bytes) (index : ℕ)
    → length buffer ≡ block_size
    → s_inode_size superblock ≡ 128
    → block_size * (bg_inode_table descriptor + index / 32) + block_size ≤ length device
    → block_size * (bg_inode_table descriptor + index / 32) ≤ 2147483647
    → (block : Bytes) × (buffer_get_inode device superblock descriptor buffer (index + 1)
        ≡ ok (block, take 128 (drop (block_size * bg_inode_table descriptor + 128 * index) device)))
      × (length block ≡ block_size)
unfolding buffer_get_inode copy_from
buffer_get_inode_lem device superblock descriptor buffer index size inodes inside fits =
    let table = bg_inode_table descriptor in
    let (run, whole) =
      buffer_read_block_whole device buffer (table + index / 32) size inside fits in
    let test : leb (index % 32 * 128 + 128) 4096 ≡ true =
      room_test (index % 32 * 128 + 128) (omega arith) in
    let nonzero : (index + 1 == 0) ≡ false = nonzero_test index in
    let back : index + 1 - 1 ≡ index = omega arith in
    (
      block_of device (table + index / 32),
      rw (nonzero, inodes, back, run, test)
          (ap (λ inode. ok (block_of device (table + index / 32), inode))
            (place_lem device table index)),
      whole,
    )
