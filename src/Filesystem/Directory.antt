-- ===== src/Filesystem/Directory.antt =====
-- The walk over the entries of the root directory in proj04/src/main.c.
use cs.Prelude.{
  ℕ, zero, suc, ◌+◌, ◌*◌, ◌%◌, ◌≤◌, ◌<◌, ◌≡◌, ◌≢◌, ◌∙◌, refl, sym, ap, false, List, [], ◌∷◌, ◌++◌,
  length, take, drop, ◌==◌, arith, append_assoc, ok, ℕ_discrete,
}
use cs.Filesystem.Blocks.{block_of, buffer_read_block_whole, room_test}
use cs.Filesystem.{
  Bytes, block_size, direntry_struct_size, entry_inode, rec_len, i_block, buffer_read_block,
  copy_from, append_dir_entry_list, walk_entries, populate_dir_entry_list,
}

-- The new entry is the last.
pub append_dir_entry_list_lem :
    (list : List Bytes) (dir_entry : Bytes)
    → append_dir_entry_list list dir_entry ≡ list ++ (dir_entry ∷ [])
unfolding append_dir_entry_list
append_dir_entry_list_lem [] dir_entry = refl
append_dir_entry_list_lem (node ∷ nodes) dir_entry =
    ap (λ r. node ∷ r) (append_dir_entry_list_lem nodes dir_entry)

-- The entries from an offset to the end of a block: each begins where the last one's length ends, has an
-- inode, and has a whole struct before the end of the block.
pub data Entries (block : Bytes) : ℕ → List Bytes → Type 0 where
  done : Entries block block_size []
  entry :
      {offset : ℕ} {rest : List Bytes}
      → entry_inode (drop offset block) ≢ 0
      → offset + direntry_struct_size ≤ block_size
      → 0 < rec_len (drop offset block)
      → offset + rec_len (drop offset block) ≤ block_size
      → Entries block (offset + rec_len (drop offset block)) rest
      → Entries block offset (take direntry_struct_size (drop offset block) ∷ rest)

test_ne : (n : ℕ) → n ≢ 0 → (n == 0) ≡ false
test_ne n h = ground arith

step_next :
    (fuel : ℕ) (device : Bytes) (list : List Bytes) (block : Bytes) (number offset place next : ℕ)
    → offset % block_size ≡ place
    → offset + rec_len (drop place block) ≡ next
    → entry_inode (drop place block) ≢ 0
    → place + direntry_struct_size ≤ block_size
    → next % block_size ≢ 0
    → walk_entries (suc fuel) device list block number offset
      ≡ walk_entries fuel device
          (list ++ (take direntry_struct_size (drop place block) ∷ []))
          block
          number
          next
unfolding walk_entries copy_from
step_next fuel device list block number offset place next at to used room inside =
    rw
      (
        at,
        room_test (place + 4) (omega arith),
        test_ne (entry_inode (drop place block)) used,
        room_test (place + 264) room,
        to,
        test_ne (next % block_size) inside,
      )
      (ap (λ l. walk_entries fuel device l block number next)
        (append_dir_entry_list_lem list (take direntry_struct_size (drop place block))))

step_block :
    (fuel : ℕ) (device : Bytes) (list : List Bytes) (block other : Bytes)
    (number offset place next : ℕ)
    → offset % block_size ≡ place
    → offset + rec_len (drop place block) ≡ next
    → entry_inode (drop place block) ≢ 0
    → place + direntry_struct_size ≤ block_size
    → next % block_size ≡ 0
    → buffer_read_block device block number ≡ ok other
    → walk_entries (suc fuel) device list block number offset
      ≡ walk_entries fuel device
          (list ++ (take direntry_struct_size (drop place block) ∷ []))
          other
          (number + 1)
          next
unfolding walk_entries copy_from
step_block fuel device list block other number offset place next at to used room end read =
    rw
      (
        at,
        room_test (place + 4) (omega arith),
        test_ne (entry_inode (drop place block)) used,
        room_test (place + 264) room,
        to,
        end,
        read,
      )
      (ap (λ l. walk_entries fuel device l other (number + 1) next)
        (append_dir_entry_list_lem list (take direntry_struct_size (drop place block))))

step_stop :
    (fuel : ℕ) (device : Bytes) (list : List Bytes) (block : Bytes) (number offset : ℕ)
    → offset % block_size ≡ 0
    → entry_inode block ≡ 0
    → walk_entries (suc fuel) device list block number offset ≡ ok (list, block)
unfolding walk_entries
step_stop fuel device list block number offset at unused = rw (at, unused) refl

stop_with :
    (fuel : ℕ) (device : Bytes) (list : List Bytes) (block : Bytes) (number offset : ℕ)
    → 0 < fuel
    → offset % block_size ≡ 0
    → entry_inode block ≡ 0
    → walk_entries fuel device list block number offset ≡ ok (list, block)
stop_with zero device list block number offset some_fuel at unused = absurd (omega arith)
stop_with (suc fuel) device list block number offset some_fuel at unused =
    step_stop fuel device list block number offset at unused

-- Nothing begins at the end of the block.
at_end :
    {block : Bytes} {offset : ℕ} {es : List Bytes}
    → Entries block offset es
    → offset ≡ block_size
    → es ≡ []
at_end Entries.done e = refl
at_end (Entries.entry used room more fits rest) e = absurd (omega arith)

walk_entries-Entries :
    {block : Bytes} {offset : ℕ} {es : List Bytes} (fuel : ℕ) (device : Bytes) (list : List Bytes)
    (other : Bytes)
    → Entries block offset es
    → offset < block_size
    → length es < fuel
    → buffer_read_block device block 0 ≡ ok other
    → entry_inode other ≡ 0
    → walk_entries fuel device list block 0 offset ≡ ok (list ++ es, other)
walk_entries-Entries fuel device list other Entries.done lt enough read unused =
    absurd (omega arith)
walk_entries-Entries zero device list other (Entries.entry used room more fits rest) lt enough read
      unused =
    absurd (omega arith)
walk_entries-Entries {block} {offset} (suc fuel) device list other
      (Entries.entry {rest = es} used room more fits rest) lt enough read unused =
    let here = take direntry_struct_size (drop offset block) in
    let next = offset + rec_len (drop offset block) in
    elim (ℕ_discrete next block_size) [
      | yes end ↦
          step_block fuel device list block other 0 offset offset next (omega arith) refl used room
            (omega arith) read
          ∙ stop_with fuel device (list ++ (here ∷ [])) other 1 next (omega arith) (omega arith)
              unused
          ∙ ap (λ r. ok (list ++ (here ∷ r), other)) (sym (at_end rest end))
      | no inside ↦
          step_next fuel device list block 0 offset offset next (omega arith) refl used room
            (omega arith)
          ∙ walk_entries-Entries fuel device (list ++ (here ∷ [])) other rest (omega arith)
              (omega arith) read unused
          ∙ ap (λ r. ok (r, other)) (append_assoc list (here ∷ []) es)
    ]

-- If the first block of the root directory and block 0 lie within the device at offsets that are ints,
-- the first is filled with entries to its end and block 0 begins with four zero bytes, the list becomes
-- the entries of the first block, in order, whatever further blocks the directory has, and the buffer
-- block 0. One unit of fuel
-- more than there are entries is enough.
pub populate_dir_entry_list-Entries :
    (fuel : ℕ) (device root_directory_inode buffer : Bytes) (es : List Bytes)
    → length buffer ≡ block_size
    → block_size * i_block root_directory_inode 0 + block_size ≤ length device
    → block_size * i_block root_directory_inode 0 ≤ 2147483647
    → Entries (block_of device (i_block root_directory_inode 0)) 0 es
    → entry_inode (block_of device 0) ≡ 0
    → length es < fuel
    → populate_dir_entry_list fuel device root_directory_inode buffer ≡ ok (es, block_of device 0)
unfolding populate_dir_entry_list
populate_dir_entry_list-Entries fuel device root_directory_inode buffer es size inside fits entries
      unused enough =
    let b = i_block root_directory_inode 0 in
    let (read, whole) = buffer_read_block_whole device buffer b size inside fits in
    let (again, _) =
      buffer_read_block_whole device (block_of device b) 0 whole (omega arith) (omega arith) in
    rw read (
      walk_entries-Entries fuel device [] (block_of device 0) entries (omega arith) enough again
        unused)
