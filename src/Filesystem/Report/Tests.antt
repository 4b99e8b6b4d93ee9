-- ===== src/Filesystem/Report/Tests.antt =====
-- A run of main.c of proj04/src on a device of four blocks: the superblock, the group descriptor, the
-- inode table and the root directory.
use cs.Prelude.{◌≡◌, ◌≤◌, ℕ, refl, List, [], ◌∷◌, ◌++◌, arith, take, drop, replicate, ok, some, map}
use cs.Filesystem.{Bytes}
use cs.Filesystem.Blocks.{block_of}
use cs.Filesystem.Directory.{Entries}
use cs.Filesystem.Report.{entry_name, superblock_fields, main}
use cs.Filesystem.Report.Listing.{
  superblock_of, descriptor_of, block_bytes_of, listed, InTable, Readable, main_lem,
}

abbrev superblock_block : Bytes
superblock_block = replicate 1048 0 ++ (2 ∷ replicate 63 0) ++ (128 ∷ 0 ∷ replicate 2982 0)

abbrev descriptor_block : Bytes
descriptor_block = replicate 8 0 ++ (2 ∷ 0 ∷ 0 ∷ 0 ∷ replicate 4084 0)

abbrev inode_block : Bytes
inode_block = replicate 168 0 ++ (3 ∷ replicate 3927 0)

-- The entries "a" and "bc", of 300 and 3796 bytes.
abbrev directory_block : Bytes
directory_block =
    (5 ∷ 0 ∷ 0 ∷ 0 ∷ 44 ∷ 1 ∷ 1 ∷ 2 ∷ 97 ∷ replicate 291 0)
    ++ (6 ∷ 0 ∷ 0 ∷ 0 ∷ 212 ∷ 14 ∷ 2 ∷ 1 ∷ 98 ∷ 99 ∷ replicate 3786 0)

abbrev disk : Bytes
disk = superblock_block ++ descriptor_block ++ inode_block ++ directory_block

abbrev disk_entries : List Bytes
disk_entries = take 264 (drop 0 (block_of disk 3)) ∷ take 264 (drop 300 (block_of disk 3)) ∷ []

in_disk : (n : ℕ) → 1 ≤ n → n ≤ 32 → InTable disk (descriptor_of disk) n
in_disk n low high = record { positive = low; inside = omega arith; fits = omega arith }

disk-Entries : Entries (block_of disk 3) 0 disk_entries
disk-Entries =
    Entries.entry (omega arith) (omega arith) (omega arith) (omega arith)
      (Entries.entry (omega arith) (omega arith) (omega arith) (omega arith) Entries.done)

disk-Readable : Readable disk disk_entries
disk-Readable = record {
  two_blocks = omega arith;
  inodes_of_128 = refl;
  block_shift = omega arith;
  root_in_table = in_disk 2 (omega arith) (omega arith);
  root_inside = omega arith;
  root_fits = omega arith;
  entries = disk-Entries;
  unused = refl;
  in_table = (in_disk 5 (omega arith) (omega arith), (in_disk 6 (omega arith) (omega arith), tt));
}

main_lem_example :
    main 3 (some disk)
    ≡ ok (record {
      superblock_info = superblock_fields (block_bytes_of disk) (superblock_of disk);
      root_directory_entries = map entry_name disk_entries;
      root_directory_inodes = map (listed disk (descriptor_of disk)) disk_entries;
    })
main_lem_example = main_lem 3 disk disk_entries disk-Readable (omega arith)

disk_names : map entry_name disk_entries ≡ (97 ∷ []) ∷ (98 ∷ 99 ∷ []) ∷ []
unfolding entry_name
disk_names = refl
