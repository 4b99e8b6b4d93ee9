-- ===== src/Filesystem/Report/Listing.antt =====
-- What the reader of proj04/src prints of a disk.
use cs.Prelude.{
  if_true, true, ℕ, ◌+◌, ◌-◌, ◌*◌, ◌^◌, ◌/◌, ◌≤◌, ◌<◌, ◌≡◌, refl, ap, ◌∙◌, List, [], ◌∷◌, length,
  take, drop, replicate, length-replicate, map, ok, some, arith,
}
use cs.Filesystem.{
  leb, Bytes, block_size, get_u32, copy_from, buffer_get_inode, i_block, entry_inode, s_inode_size,
  bg_inode_table,
}
use cs.Filesystem.Blocks.{block_of, buffer_read_block_whole, buffer_get_inode_lem}
use cs.Filesystem.Directory.{Entries, populate_dir_entry_list-Entries}
use cs.Filesystem.Report.{
  entry_name, InodeFields, print_inode, print_superblock, superblock_fields, shifted,
  init_superblock, init_bg_descriptor, print_root_directory_entries, print_root_directory_inodes,
  main,
}

-- The inode of a number, from 1 on, on a disk with inodes of 128 bytes.
abbrev pub inode_at : Bytes → Bytes → ℕ → Bytes
inode_at device descriptor n =
    take 128 (drop (block_size * bg_inode_table descriptor + 128 * (n - 1)) device)

-- The block of the inode lies within the device, at an offset that is an `int`.
pub record InTable (device descriptor : Bytes) (n : ℕ) : Type 0 where
  pub positive : 1 ≤ n
  pub inside : block_size * (bg_inode_table descriptor + (n - 1) / 32) + block_size ≤ length device
  pub fits : block_size * (bg_inode_table descriptor + (n - 1) / 32) ≤ 2147483647

abbrev pub AllInTable : Bytes → Bytes → List Bytes → Type 0
AllInTable device descriptor [] = Unit
AllInTable device descriptor (e ∷ es) =
    InTable device descriptor (entry_inode e) × AllInTable device descriptor es

abbrev pub listed : Bytes → Bytes → Bytes → Bytes × InodeFields
listed device descriptor e =
    (entry_name e, print_inode (inode_at device descriptor (entry_inode e)))

get_inode :
    (device superblock descriptor buffer : Bytes) (n : ℕ)
    → length buffer ≡ block_size
    → s_inode_size superblock ≡ 128
    → InTable device descriptor n
    → (block : Bytes) × (buffer_get_inode device superblock descriptor buffer n
        ≡ ok (block, inode_at device descriptor n))
      × (length block ≡ block_size)
get_inode device superblock descriptor buffer n size inodes found =
    let positive = found.positive in
    let back : n ≡ n - 1 + 1 = omega arith in
    let (block, run, whole) =
      buffer_get_inode_lem device superblock descriptor buffer (n - 1) size inodes found.inside
        found.fits in
    (block, ap (buffer_get_inode device superblock descriptor buffer) back ∙ run, whole)

pub print_root_directory_inodes_lem :
    (device superblock descriptor buffer : Bytes) (es : List Bytes)
    → length buffer ≡ block_size
    → s_inode_size superblock ≡ 128
    → AllInTable device descriptor es
    → print_root_directory_inodes device superblock descriptor buffer es
      ≡ ok (map (listed device descriptor) es)
unfolding print_root_directory_inodes
print_root_directory_inodes_lem device superblock descriptor buffer [] size inodes found = refl
print_root_directory_inodes_lem device superblock descriptor buffer (e ∷ es) size inodes
      (first, found) =
    let (block, run, whole) =
      get_inode device superblock descriptor buffer (entry_inode e) size inodes first in
    rw
      (
        run,
        print_root_directory_inodes_lem device superblock descriptor block es whole inodes found,
      )
      refl

abbrev pub superblock_of : Bytes → Bytes
superblock_of device = take 1024 (drop 1024 (block_of device 0))

abbrev pub descriptor_of : Bytes → Bytes
descriptor_of device = take 32 (drop 0 (block_of device 1))

-- The inode of the root directory.
abbrev pub root_of : Bytes → Bytes
root_of device = inode_at device (descriptor_of device) 2

abbrev pub block_bytes_of : Bytes → ℕ
block_bytes_of device = 1024 * 2 ^ get_u32 (superblock_of device) 24

-- A disk that the program can read: its root inode is in the table, and the first block of the root
-- directory lies within the device and is filled with entries, whose inodes are in the table too.
pub record Readable (device : Bytes) (es : List Bytes) : Type 0 where
  pub two_blocks : block_size * 1 + block_size ≤ length device
  pub inodes_of_128 : s_inode_size (superblock_of device) ≡ 128
  pub block_shift : get_u32 (superblock_of device) 24 ≤ 20
  pub root_in_table : InTable device (descriptor_of device) 2
  pub root_inside : block_size * i_block (root_of device) 0 + block_size ≤ length device
  pub root_fits : block_size * i_block (root_of device) 0 ≤ 2147483647
  pub entries : Entries (block_of device (i_block (root_of device) 0)) 0 es
  pub unused : entry_inode (block_of device 0) ≡ 0
  pub in_table : AllInTable device (descriptor_of device) es

init_lem :
    (device : Bytes)
    → block_size * 1 + block_size ≤ length device
    → (init_superblock device (replicate block_size 0)
        ≡ ok (block_of device 0, superblock_of device))
      × (init_bg_descriptor device (block_of device 0)
          ≡ ok (block_of device 1, descriptor_of device))
      × (length (block_of device 0) ≡ block_size)
      × (length (block_of device 1) ≡ block_size)
unfolding init_superblock init_bg_descriptor copy_from
init_lem device two =
    let (run, whole) =
      buffer_read_block_whole device (replicate block_size 0) 0
        (length-replicate {A = ℕ} block_size 0) (omega (arith, two)) (omega arith) in
    let (run1, whole1) =
      buffer_read_block_whole device (block_of device 0) 1 whole two (omega arith) in
    (rw run refl, rw run1 refl, whole, whole1)

shifted_lem : (n : ℕ) → n ≤ 20 → shifted n ≡ ok (1024 * 2 ^ n)
shifted_lem n h = if_true _ _ _ _ (small n h) refl
  where
    small : (n : ℕ) → n ≤ 20 → leb n 20 ≡ true
    small n h = ground arith

names : (es : List Bytes) → print_root_directory_entries es ≡ map entry_name es
unfolding print_root_directory_entries
names [] = refl
names (e ∷ es) = ap (entry_name e ∷◌) (names es)

-- On a device of two blocks or more with inodes of 128 bytes, whose s_log_block_size is at most 20, whose root
-- directory has one block of the device that is filled with entries to its end, whose block 0 begins
-- with four zero bytes, and where the block of the root inode and those of the inodes of all entries
-- lie within the device at offsets that are an int, the program prints the fields of the superblock, then
-- the names of the entries in their order, and then each name with the inode of its number in the
-- table. Any fuel above the number of entries is enough.
pub main_lem :
    (fuel : ℕ) (device : Bytes) (es : List Bytes)
    → Readable device es
    → length es < fuel
    → main fuel (some device)
      ≡ ok (record {
        superblock_info = superblock_fields (block_bytes_of device) (superblock_of device);
        root_directory_entries = map entry_name es;
        root_directory_inodes = map (listed device (descriptor_of device)) es;
      })
unfolding main print_superblock
main_lem fuel device es disk enough =
    let (first, second, whole0, whole1) = init_lem device disk.two_blocks in
    let (block2, root, whole2) =
      get_inode device (superblock_of device) (descriptor_of device) (block_of device 1) 2 whole1
        disk.inodes_of_128 disk.root_in_table in
    let walked =
      populate_dir_entry_list-Entries fuel device (root_of device) block2 es whole2 disk.root_inside
        disk.root_fits disk.entries disk.unused enough in
    rw
      (
        first,
        second,
        root,
        shifted_lem (get_u32 (superblock_of device) 24) disk.block_shift,
        walked,
        print_root_directory_inodes_lem device (superblock_of device) (descriptor_of device)
            (block_of device 0) es whole0 disk.inodes_of_128 disk.in_table,
        names es,
      )
      refl
