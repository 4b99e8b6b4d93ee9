-- ===== src/Filesystem.antt =====
-- proj04/src: a reader of an ext2 disk. The device is the list of its bytes; the block buffer of main.c
-- is a list of 4096 bytes, and a struct is the bytes that `memcpy` copies.
pub mod Blocks
pub mod Directory
pub mod Report
mod Tests
use cs.Prelude.{
  ℕ, zero, suc, ◌+◌, ◌-◌, ◌*◌, ◌/◌, ◌%◌, List, [], ◌∷◌, ◌++◌, length, take, drop, get_or, replicate,
  leb, ◌==◌, if◌then◌else◌, ◌&&◌, Outcome, ok, undefined, out_of_fuel, ◌>>=◌,
}

abbrev pub Bytes : Type 0
Bytes = List ℕ

abbrev pub block_size : ℕ
block_size = 4096

-- Fields of two and four bytes, the lowest first.
abbrev pub get_u16 : Bytes → ℕ → ℕ
get_u16 bytes offset = get_or bytes offset 0 + 256 * get_or bytes (offset + 1) 0

abbrev pub get_u32 : Bytes → ℕ → ℕ
get_u32 bytes offset = get_u16 bytes offset + 65536 * get_u16 bytes (offset + 2)

-- `buffer_read_block`: what `read` returns replaces the front of the buffer. An offset that is no `int`
-- is undefined.
pub buffer_read_block : Bytes → Bytes → ℕ → Outcome Bytes
buffer_read_block device buffer block_number =
    let found = take block_size (drop (block_size * block_number) device) in
    if leb (block_size * block_number) 2147483647
    then ok (found ++ drop (length found) buffer)
    else undefined

-- `memcpy` of so many bytes from an offset of the buffer.
pub copy_from : Bytes → ℕ → ℕ → Outcome Bytes
copy_from buffer offset size =
    if leb (offset + size) block_size then ok (take size (drop offset buffer)) else undefined

-- `sizeof(struct ext2_inode_t)` and `sizeof(struct ext2_direntry_t)`
abbrev pub inode_struct_size : ℕ
inode_struct_size = 128

abbrev pub direntry_struct_size : ℕ
direntry_struct_size = 264

-- The fields that are read: of an inode the block numbers, of an entry its inode and length.
abbrev pub i_block : Bytes → ℕ → ℕ
i_block inode k = get_u32 inode (40 + 4 * k)

abbrev pub entry_inode : Bytes → ℕ
entry_inode entry = get_u32 entry 0

abbrev pub rec_len : Bytes → ℕ
rec_len entry = get_u16 entry 4

-- The fields of the superblock and of the block group descriptor.
abbrev pub s_inode_size : Bytes → ℕ
s_inode_size superblock = get_u16 superblock 88

abbrev pub bg_inode_table : Bytes → ℕ
bg_inode_table descriptor = get_u32 descriptor 8

-- `buffer_get_inode`: the buffer that it leaves, and the copy. The copy has no room in an inode size
-- below that of the struct, and an inode size beyond the block divides by 0.
pub buffer_get_inode : Bytes → Bytes → Bytes → Bytes → ℕ → Outcome (Bytes × Bytes)
unfolding buffer_read_block copy_from
buffer_get_inode device superblock descriptor buffer inode_index =
    let inodes_per_block = block_size / s_inode_size superblock in
    let found = do
      block ←
          buffer_read_block device buffer
            (bg_inode_table descriptor + (inode_index - 1) / inodes_per_block)
      inode ←
          copy_from block ((inode_index - 1) % inodes_per_block * inode_struct_size)
            inode_struct_size
      ok (block, inode)
    in if inode_index == 0
      then undefined
      else if leb inode_struct_size (s_inode_size superblock)
          && leb (s_inode_size superblock) block_size
      then found
      else undefined

-- `append_dir_entry_list`: the walk to the end of the list.
pub append_dir_entry_list : List Bytes → Bytes → List Bytes
append_dir_entry_list [] dir_entry = dir_entry ∷ []
append_dir_entry_list (node ∷ nodes) dir_entry = node ∷ append_dir_entry_list nodes dir_entry

-- The loop of `populate_dir_entry_list`, on fuel: the list so far, the buffer, the number of the next
-- block to read and the offset in the directory. The test reads four bytes of the buffer.
pub walk_entries : ℕ → Bytes → List Bytes → Bytes → ℕ → ℕ → Outcome (List Bytes × Bytes)
unfolding buffer_read_block copy_from append_dir_entry_list
walk_entries zero device list buffer block_offset dir_entry_offset = out_of_fuel
walk_entries (suc fuel) device list buffer block_offset dir_entry_offset =
    let place = dir_entry_offset % block_size in
    let next = dir_entry_offset + rec_len (drop place buffer) in
    let rest = λ (entry : Bytes) (block : Bytes) (number : ℕ).
      walk_entries fuel device (append_dir_entry_list list entry) block number next in
    let another = λ (entry : Bytes). buffer_read_block device buffer block_offset >>= λ block.
    rest entry block (block_offset + 1) in
    let more = copy_from buffer place direntry_struct_size >>= λ entry.
    if next % block_size == 0 then another entry else rest entry buffer block_offset in
    let tested = if entry_inode (drop place buffer) == 0 then ok (list, buffer) else more in
    if leb (place + 4) block_size then tested else undefined

-- `populate_dir_entry_list`, for the root inode, from an empty list, with the buffer that it leaves.
pub populate_dir_entry_list : ℕ → Bytes → Bytes → Bytes → Outcome (List Bytes × Bytes)
unfolding walk_entries
populate_dir_entry_list fuel device root_directory_inode buffer =
    buffer_read_block device buffer (i_block root_directory_inode 0) >>= λ block.
    walk_entries fuel device [] block 0 0
