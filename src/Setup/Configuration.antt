-- ===== src/Setup/Configuration.antt =====
-- engine/p8_config.cpp: `p8_config_read_file`. The file and the allocator belong to the C library: what its
-- calls answer is an input, and the open files and the allocated blocks are the state of the process.
use selenge_muren.Prelude.{
  ℕ, suc, ◌-◌, ◌≡◌, inl, inr, refl, sym, ap, subst, ◌∙◌, Bool, true, false, ◌&&◌, Option, none,
  some, List, [], ◌∷◌, ◌++◌, ◌==◌, if◌then◌else◌, length, take, drop, replicate, map, arith,
  Bool-cases, ==→eq, leb, length-take,
}
use selenge_muren.Writer.{Byte}

-- What the calls answer: whether the file opens and its end can be sought, the position of the end, the
-- block that is allocated, and the bytes that the file has when it is read.
pub record File : Type 0 where
  pub opens : Bool
  pub seeks : Bool
  pub end_position : Option ℕ
  pub block : Option ℕ
  pub contents : List ℕ

-- The number of open files, and the bytes of each allocated block, `none` before they are written.
pub record Host : Type 0 where
  pub file_count : ℕ
  pub heap : ℕ → Option (List Byte)

unfoldable pub store : ℕ → Option (List Byte) → Host → Host
store a block host = record host { heap = λ b. if b == a then block else host.heap b }

-- The lines at `lbl_exit` for an open file: the pointer that is returned.
unfoldable pub exit_read : (error : Bool) → Option ℕ → Host → Option ℕ × Host
unfolding store
exit_read error none host = (none, record host { file_count = host.file_count - 1 })
exit_read error (some a) host =
    let closed : Host = record host { file_count = host.file_count - 1 } in
    if error then (none, store a none closed) else (some a, closed)

-- The block after `fread` stored `bytes`, and after the terminator.
abbrev pub stored_bytes : (size : ℕ) → List ℕ → List Byte
stored_bytes size bytes = map (λ b. some b) bytes ++ drop (length bytes) (replicate (suc size) none)

abbrev pub terminated : (size : ℕ) → List Byte → List Byte
terminated size block = take size block ++ (some 0 ∷ drop (suc size) block)

-- A failure before anything is allocated.
unfoldable pub refuse : Host → Option ℕ × ℕ × Host
unfolding exit_read
refuse host = let (pointer, left) = exit_read true none host in (pointer, 0, left)

-- The lines behind `malloc`: the pointer, the size that is reported, and the process.
unfoldable pub read_block : (size a : ℕ) → List ℕ → Host → Option ℕ × ℕ × Host
unfolding store exit_read
read_block size a bytes host =
    let filled = stored_bytes size bytes in
    let failed = exit_read true (some a) (store a (some filled) host) in
    let done = exit_read false (some a) (store a (some (terminated size filled)) host) in
    if length bytes == size then (done.0, size, done.1) else (failed.0, 0, failed.1)

-- The lines behind `rewind`.
unfoldable pub allocate : (size : ℕ) → File → Host → Option ℕ × ℕ × Host
unfolding read_block refuse
allocate size file host = elim file.block [
  | none ↦ refuse host
  | some a ↦ read_block size a (take size file.contents) host
]

-- The lines behind `fopen`.
unfoldable pub read_open : File → Host → Option ℕ × ℕ × Host
unfolding allocate refuse
read_open file host =
    if file.seeks
    then (elim file.end_position [ none ↦ refuse host | some size ↦ allocate size file host ])
    else refuse host

-- `p8_config_read_file`; `has_path` says whether the path is not null.
unfoldable pub p8_config_read_file : (has_path : Bool) → File → Host → Option ℕ × ℕ × Host
unfolding read_open
p8_config_read_file has_path file host =
    if has_path && file.opens
    then read_open file (record host { file_count = suc host.file_count })
    else (none, 0, host)

-- What is to be read: the block and the bytes before the end, if every call succeeds and the file still
-- has as many.
abbrev whole : (size : ℕ) → List ℕ → Option (List ℕ)
whole size contents = if leb size (length contents) then some (take size contents) else none

unfoldable pub expected : (has_path : Bool) → File → Option (ℕ × List ℕ)
expected has_path file =
    if has_path && (file.opens && file.seeks)
    then (elim file.end_position [
      | none ↦ none
      | some size ↦ elim file.block [
        | none ↦ none
        | some a ↦ elim (whole size file.contents) [ none ↦ none | some bytes ↦ some (a, bytes) ]
      ]
    ])
    else none

-- The block with its bytes and the terminator is the only one that is new.
unfoldable pub heap_with : Option (ℕ × List ℕ) → Host → ℕ → Option (List Byte)
heap_with none host b = host.heap b
heap_with (some (a, bytes)) host b =
    if b == a then some (map (λ n. some n) bytes ++ some 0 ∷ []) else host.heap b

pub record Agrees (host : Host) (e : Option (ℕ × List ℕ)) (r : Option ℕ × ℕ × Host) : Type 0 where
  pub pointer : r.0 ≡ (elim e [ none ↦ none | some (a, bytes) ↦ some a ])
  pub size : r.1 ≡ (elim e [ none ↦ 0 | some (a, bytes) ↦ length bytes ])
  pub files : r.2.file_count ≡ host.file_count
  pub heap : (b : ℕ) → r.2.heap b ≡ heap_with e host b

abbrev opened : Host → Host
opened host = record host { file_count = suc host.file_count }

refuse-Agrees : (host : Host) → Agrees host none (refuse (opened host))
unfolding refuse exit_read heap_with
refuse-Agrees host = record { pointer = refl; size = refl; files = omega arith; heap = λ b. refl }

-- A block that was filled to its size has the bytes and the terminator.
terminated_lem :
    (bytes : List ℕ)
    → terminated (length bytes) (stored_bytes (length bytes) bytes)
      ≡ map (λ n. some n) bytes ++ some 0 ∷ []
terminated_lem [] = refl
terminated_lem (n ∷ bytes) = ap (◌∷◌ (some n)) (terminated_lem bytes)

-- Two stores at an address, and elsewhere.
store_again :
    (a b : ℕ) (x y : Option (List Byte)) (host : Host)
    → host.heap a ≡ y
    → (store a y (store a x host)).heap b ≡ host.heap b
unfolding store
store_again a b x y host fresh = elim (Bool-cases (b == a)) [
  | inl e ↦ rw (e, store) (sym fresh ∙ ap host.heap (sym (==→eq b a e)))
  | inr e ↦ rw (e, store) refl
]

eq-same : (n : ℕ) → (n == n) ≡ true
eq-same n = ground arith

filled_heap :
    (a b : ℕ) (bytes : List ℕ) (block : List Byte) (host : Host)
    → block ≡ map (λ n. some n) bytes ++ some 0 ∷ []
    → (store a (some block) host).heap b ≡ heap_with (some (a, bytes)) host b
unfolding store heap_with
filled_heap a b bytes block host e =
    ap (λ (x : List Byte). if b == a then some x else host.heap b) e

read_block_full :
    (a : ℕ) (bytes : List ℕ) (host : Host)
    → Agrees host (some (a, bytes)) (read_block (length bytes) a bytes (opened host))
unfolding read_block exit_read
read_block_full a bytes host = rw (eq-same (length bytes)) (record {
  pointer = refl;
  size = refl;
  files = omega arith;
  heap = λ b.
      filled_heap a b bytes (terminated (length bytes) (stored_bytes (length bytes) bytes)) host
        (terminated_lem bytes);
})

read_block_short :
    (size a : ℕ) (bytes : List ℕ) (host : Host)
    → host.heap a ≡ none
    → (length bytes == size) ≡ false
    → Agrees host none (read_block size a bytes (opened host))
unfolding read_block exit_read heap_with
read_block_short size a bytes host fresh short = rw short (record {
  pointer = refl;
  size = refl;
  files = omega arith;
  heap = λ b. store_again a b (some (stored_bytes size bytes)) none (opened host) fresh;
})

abbrev file_of : (opens seeks : Bool) (end block : Option ℕ) → List ℕ → File
file_of opens seeks end block contents = record {
  opens = opens;
  seeks = seeks;
  end_position = end;
  block = block;
  contents = contents;
}

taken_whole :
    (size : ℕ) (contents : List ℕ)
    → leb size (length contents) ≡ true
    → length (take size contents) ≡ size
taken_whole size contents e = ground (arith, length-take size contents)

taken_short :
    (size : ℕ) (contents : List ℕ)
    → leb size (length contents) ≡ false
    → (length (take size contents) == size) ≡ false
taken_short size contents e = ground (arith, length-take size contents)

-- A file that opens and whose end is known.
allocate-Agrees :
    (size : ℕ) (block : Option ℕ) (contents : List ℕ) (host : Host)
    → ((a : ℕ) → block ≡ some a → host.heap a ≡ none)
    → let file = file_of true true (some size) block contents in
      Agrees host (expected true file) (allocate size file (opened host))
unfolding allocate expected
allocate-Agrees size none contents host fresh = refuse-Agrees host
allocate-Agrees size (some a) contents host fresh = elim (Bool-cases (leb size (length contents))) [
  | inl e ↦
      let taken = taken_whole size contents e in
      rw e (
        subst
          (λ n.
            Agrees host (some (a, take size contents))
              (read_block n a (take size contents) (opened host)))
          taken (read_block_full a (take size contents) host))
  | inr e ↦ rw e (
      read_block_short size a (take size contents) host (fresh a refl)
        (taken_short size contents e))
]

-- `p8_config_read_file` gives the file's bytes before its end, with a terminator, in the only block that is
-- new, and reports their number, if every call succeeds and reads as many; else it gives nothing, reports 0
-- and leaves no block. Either way no file stays open.
pub p8_config_read_file-Agrees :
    (has_path : Bool) (file : File) (host : Host)
    → ((a : ℕ) → file.block ≡ some a → host.heap a ≡ none)
    → Agrees host (expected has_path file) (p8_config_read_file has_path file host)
unfolding p8_config_read_file read_open expected heap_with
p8_config_read_file-Agrees has_path file host fresh =
    go has_path file.opens file.seeks file.end_position
  where
    go :
        (has_path opens seeks : Bool) (end : Option ℕ)
        → let f = file_of opens seeks end file.block file.contents in
          Agrees host (expected has_path f) (p8_config_read_file has_path f host)
    go false opens seeks end = record {
      pointer = refl;
      size = refl;
      files = refl;
      heap = λ b. refl;
    }
    go true false seeks end = record { pointer = refl; size = refl; files = refl; heap = λ b. refl }
    go true true false end = refuse-Agrees host
    go true true true none = refuse-Agrees host
    go true true true (some size) = allocate-Agrees size file.block file.contents host fresh
