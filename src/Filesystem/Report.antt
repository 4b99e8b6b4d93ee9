-- ===== src/Filesystem/Report.antt =====
-- What main.c of proj04/src prints: the fields of the superblock, and the names and inodes of the entries
-- of the root directory. A line is the number or the name that is passed to its `printf`; the change
-- time is given in seconds, as it stands in the inode.
pub mod Listing
pub mod Tests
use cs.Prelude.{
  ℕ, ◌+◌, ◌*◌, ◌^◌, List, [], ◌∷◌, Option, length, take, drop, get_or, replicate, leb, ◌==◌,
  if◌then◌else◌, Outcome, ok, exit, undefined, ◌>>=◌, from_option,
}
use cs.Filesystem.{
  Bytes, block_size, get_u16, get_u32, buffer_read_block, copy_from, buffer_get_inode, i_block,
  entry_inode, populate_dir_entry_list,
}

-- The bytes up to a NUL.
pub until_nul : Bytes → Bytes
until_nul [] = []
until_nul (b ∷ bytes) = let rest = until_nul bytes in if b == 0 then [] else b ∷ rest

-- "%.*s" of `name_len` and `file_name`
pub entry_name : Bytes → Bytes
unfolding until_nul
entry_name entry = until_nul (take (get_or entry 6 0) (drop 8 entry))

-- What `print_inode` prints.
pub record InodeFields : Type 0 where
  pub i_size : ℕ
  pub i_uid : ℕ
  pub i_gid : ℕ
  pub i_links_count : ℕ
  pub i_blocks : ℕ
  pub first_block : ℕ
  pub i_generation : ℕ
  pub i_mode : ℕ
  pub i_flags : ℕ
  pub i_ctime : ℕ

pub print_inode : Bytes → InodeFields
print_inode inode = record {
  i_size = get_u32 inode 4;
  i_uid = get_u16 inode 2;
  i_gid = get_u16 inode 24;
  i_links_count = get_u16 inode 26;
  i_blocks = get_u16 inode 28;
  first_block = i_block inode 0;
  i_generation = get_u32 inode 100;
  i_mode = get_u16 inode 0;
  i_flags = get_u32 inode 32;
  i_ctime = get_u32 inode 12;
}

-- What `print_superblock` prints.
pub record SuperblockFields : Type 0 where
  pub s_inodes_count : ℕ
  pub s_free_inodes_count : ℕ
  pub block_bytes : ℕ
  pub s_blocks_count : ℕ
  pub s_free_blocks_count : ℕ
  pub s_first_data_block : ℕ
  pub s_blocks_per_group : ℕ
  pub s_inodes_per_group : ℕ
  pub s_mnt_count : ℕ
  pub s_max_mnt_count : ℕ

-- `1024 << n`, which is undefined where it is no `int`.
abbrev pub shifted : ℕ → Outcome ℕ
shifted n = if leb n 20 then ok (1024 * 2 ^ n) else undefined

pub superblock_fields : ℕ → Bytes → SuperblockFields
superblock_fields block_bytes superblock = record {
  s_inodes_count = get_u32 superblock 0;
  s_free_inodes_count = get_u32 superblock 16;
  block_bytes = block_bytes;
  s_blocks_count = get_u32 superblock 4;
  s_free_blocks_count = get_u32 superblock 12;
  s_first_data_block = get_u32 superblock 20;
  s_blocks_per_group = get_u32 superblock 32;
  s_inodes_per_group = get_u32 superblock 40;
  s_mnt_count = get_u16 superblock 52;
  s_max_mnt_count = get_u16 superblock 54;
}

pub print_superblock : Bytes → Outcome SuperblockFields
print_superblock superblock =
    shifted (get_u32 superblock 24) >>= λ block_bytes. ok (superblock_fields block_bytes superblock)

-- The buffer and the superblock.
pub init_superblock : Bytes → Bytes → Outcome (Bytes × Bytes)
init_superblock device buffer = do
  block ← buffer_read_block device buffer 0
  superblock ← copy_from block 1024 1024
  ok (block, superblock)

-- The buffer and the block group descriptor.
pub init_bg_descriptor : Bytes → Bytes → Outcome (Bytes × Bytes)
init_bg_descriptor device buffer = do
  block ← buffer_read_block device buffer 1
  bg_descriptor ← copy_from block 0 32
  ok (block, bg_descriptor)

pub print_root_directory_entries : List Bytes → List Bytes
unfolding entry_name
print_root_directory_entries [] = []
print_root_directory_entries (node ∷ nodes) = entry_name node ∷ print_root_directory_entries nodes

-- The loop over the entries, with the buffer of blocks.
pub print_root_directory_inodes :
    Bytes → Bytes → Bytes → Bytes → List Bytes → Outcome (List (Bytes × InodeFields))
unfolding entry_name print_inode
print_root_directory_inodes device superblock descriptor buffer [] = ok []
print_root_directory_inodes device superblock descriptor buffer (node ∷ nodes) = do
  (block, inode) ← buffer_get_inode device superblock descriptor buffer (entry_inode node)
  rest ← print_root_directory_inodes device superblock descriptor block nodes
  ok ((entry_name node, print_inode inode) ∷ rest)

-- The output, by its three parts.
pub record Output : Type 0 where
  pub superblock_info : SuperblockFields
  pub root_directory_entries : List Bytes
  pub root_directory_inodes : List (Bytes × InodeFields)

-- A device that cannot be opened ends the program with status 1. The fuel is for the walk over the
-- directory.
pub main : ℕ → Option Bytes → Outcome Output
unfolding init_superblock init_bg_descriptor print_superblock print_root_directory_entries
    print_root_directory_inodes
main fuel opened = do
  device ← from_option opened (exit 1)
  (block0, superblock) ← init_superblock device (replicate block_size 0)
  (block1, bg_descriptor) ← init_bg_descriptor device block0
  (block2, root_directory_inode) ← buffer_get_inode device superblock bg_descriptor block1 2
  superblock_info ← print_superblock superblock
  (entries, block3) ← populate_dir_entry_list fuel device root_directory_inode block2
  inodes ← print_root_directory_inodes device superblock bg_descriptor block3 entries
  ok (record {
    superblock_info = superblock_info;
    root_directory_entries = print_root_directory_entries entries;
    root_directory_inodes = inodes;
  })
