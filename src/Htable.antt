-- ===== src/Htable.antt =====
-- src/htable.c: an open addressing table of torrent files, keyed by the file's digest.
-- Whether `calloc` has memory for `n` entries is a parameter.
use grintorrent.Base.{
  ℕ, zero, suc, ◌+◌, ◌-◌, ◌*◌, ◌%◌, ◌^◌, Bool, Option, none, some, List, bit_and, ltb, leb, ◌==◌,
  if◌then◌else◌, length, get_elem?, get_or, set, replicate, Run, ok, fault, out_of_fuel, bad_free,
  ◌>>=◌, ◌>>◌, deref, in_bounds,
}
pub mod Probe
pub mod Invariant
pub mod Search
pub mod Insert
pub mod Replace
pub mod Resize
pub mod Threads
use grintorrent.Base.Int.{ℤ, pos, negsuc}
use grintorrent.Tfile.{Digest, TfileDef, Location, Tfile, blank, is_zero, same_digest}

abbrev pub starting_capacity : ℕ
starting_capacity = 256

-- `htable_t`
pub record Htable : Type 0 where
  pub capacity : ℕ
  pub size : ℕ
  pub table : List Tfile

pub init_htable : Htable
init_htable = record {
  capacity = starting_capacity;
  size = 0;
  table = replicate starting_capacity blank;
}

-- `free` of a NULL pointer does nothing.
abbrev free_location : Location → Run (Unit {0})
free_location Location.null = ok tt
free_location (Location.heap s) = ok tt
free_location Location.own_name = fault bad_free

free_loop : List Tfile → ℕ → ℕ → Run (Unit {0})
free_loop table zero i = ok tt
free_loop table (suc k) i =
    let rest = free_loop table k (i + 1) in
    do slot ← in_bounds (get_elem? table i); free_location slot.f_location; rest

-- The rounds left are `capacity - i`.
pub free_htable : Htable → Run (Unit {0})
unfolding free_loop
free_htable ht = free_loop ht.table ht.capacity 0

-- `hash1 & (uint64_t)(htable->capacity - 1)`
unfoldable pub home : Htable → Digest → ℕ
home ht hash = bit_and hash.h1 ((ht.capacity + 2 ^ 64 - 1) % 2 ^ 64)

-- How the loop of `add_htable` and `search_htable` ends: at an empty entry, or at the hash.
pub data Found : Type 0 where
  vacant : ℕ → Found
  present : ℕ → Found

-- That loop, with the rounds that it may make.
pub probe : Htable → Digest → ℕ → ℕ → Run Found
probe ht hash zero index = out_of_fuel
probe ht hash (suc f) index =
    let next = probe ht hash f (if leb ht.capacity index then 0 else index + 1) in
    do
      slot ← in_bounds (get_elem? ht.table index)
      if is_zero slot.tdef.f_hash
          then ok (Found.vacant index)
          else if same_digest hash slot.tdef.f_hash
          then ok (Found.present index)
          else next

abbrev pub rounds : Htable → ℕ
rounds ht = suc (suc (length ht.table))

-- The result is the index of the entry, or `none` for NULL.
pub search_htable : Htable → Digest → Run (Option ℕ)
search_htable ht hash = do
  r ← probe ht hash (rounds ht) (home ht hash)
  elim r [ Found.vacant i ↦ ok none | Found.present i ↦ ok (some i) ]

-- `htable->table[index].tdef = tdef` keeps the two locations.
unfoldable pub write_def : Htable → ℕ → TfileDef → Htable
write_def ht i tdef = record ht {
  size = (ht.size + 1) % 2 ^ 64;
  table = set ht.table i (record (get_or ht.table i blank) { tdef = tdef });
}

-- `add_htable` behind the test for growth.
pub place : Htable → TfileDef → Run (Option ℕ × Htable)
place ht tdef = do
  r ← probe ht tdef.f_hash (rounds ht) (home ht tdef.f_hash)
  elim r [ Found.vacant i ↦ ok (some i, write_def ht i tdef) | Found.present i ↦ ok (none, ht) ]

-- `int new_capacity = htable->capacity * 2`, converted back to `size_t`
unfoldable pub new_capacity : ℕ → ℕ
new_capacity capacity =
    let n = (capacity * 2) % 2 ^ 32 in if ltb n (2 ^ 31) then n else n + 2 ^ 64 - 2 ^ 32

-- `*(uint16_t*)f_hash`
abbrev pub prefix16 : Digest → ℕ
prefix16 d = d.h1 % 2 ^ 16

abbrev pub Add : Type 0
Add = Htable → TfileDef → Run (Option ℕ × Htable)

-- `t = add_htable(htable, htable->table[i].tdef)` and the two writes through `t`
pub re_add : Add → Htable → ℕ → Tfile → Run Htable
re_add add ht i slot = do
  (t, ht') ← add ht slot.tdef
  j ← deref t
  entry ← in_bounds (get_elem? ht'.table i)
  target ← in_bounds (get_elem? ht'.table j)
  ok (record ht' {
    table =
        set ht'.table j
          (record target { f_location = entry.f_location; m_location = entry.m_location });
  })

pub resize_loop : Add → ℕ → ℕ → Htable → Run Htable
unfolding re_add
resize_loop add zero i ht = out_of_fuel
resize_loop add (suc k) i ht =
    let next = (do
      slot ← in_bounds (get_elem? ht.table i)
      ht' ← (if prefix16 slot.tdef.f_hash == 0 then re_add add ht i slot else ok ht)
      resize_loop add k (i + 1) ht') in
    if ltb i ht.capacity then next else ok ht

module _ (calloc : ℕ → Bool) where
  -- `resize_htable`, over the `add_htable` that it calls; `k` bounds the rounds of its loop.
  pub resize_with : Add → ℕ → Htable → Run (ℤ × Htable)
  unfolding resize_loop new_capacity
  resize_with add k ht =
      let n = new_capacity ht.capacity in
      let grown = (do
        ht' ← resize_loop add k 0 ht
        ok (pos 1, record ht' { capacity = n; table = replicate n blank })) in
      if calloc n then grown else ok (negsuc 0, ht)

  -- `add_htable` and `resize_htable` call one another, here at most `fuel` deep.
  pub add_htable : ℕ → Htable → TfileDef → Run (Option ℕ × Htable)
  unfolding resize_with
  add_htable zero ht tdef = out_of_fuel
  add_htable (suc f) ht tdef =
      let grown = resize_with (add_htable f) f ht >>= (λ r. place r.1 tdef) in
      if ltb ht.capacity ((ht.size * 2) % 2 ^ 64) then grown else place ht tdef

  pub resize_htable : ℕ → Htable → Run (ℤ × Htable)
  resize_htable f ht = resize_with (add_htable f) f ht
