-- ===== src/File/Open/Save.antt =====
-- Opening and saving keep the invariant of the table, and saving drops the mapping.
use grintorrent.Base.{
  ◌>>=◌, ℕ, ◌≡◌, refl, sym, ◌∙◌, ap, Bool, true, false, Bool-cases, Option-cases, inl, inr, Option,
  some, none, arith, get_elem?, get_or_of_get_elem?, ok, if◌then◌else◌, Post, Post-bind, Post-any,
}
use grintorrent.Base.Int.{ℤ, pos, leb_ℤ, quot_ℤ, ◌*ℤ◌}
use grintorrent.System.{Os}
use grintorrent.Tfile.{Digest, Tfile, TfileDef, blank, num_chunks}
use grintorrent.Htable.{Htable, search_htable}
use grintorrent.Htable.Probe.{key}
use grintorrent.Htable.Invariant.{IsValid}
use grintorrent.Htable.Replace.{put, put-IsValid}
use grintorrent.File.Open.{
  Pointer, locate, map_tfile, in_off_t, chunk_size_of, failed, open_found, open_tfile, save_found,
  save_tfile,
}

tdef-locate : (tf : Tfile) → (locate tf).tdef ≡ tf.tdef
tdef-locate tf = ground arith

map_tfile-tdef : (os : Os) (tf : Tfile) → Post (λ (done, tf'). tf'.tdef ≡ tf.tdef) (map_tfile os tf)
unfolding map_tfile
map_tfile-tdef os tf = ground (arith, tdef-locate tf)

module _ (os : Os) (ht : Htable) (v : IsValid ht) where
  same_digest_at :
      (i : ℕ) (tf tf' : Tfile)
      → get_elem? ht.table i ≡ some tf
      → tf'.tdef ≡ tf.tdef
      → tf'.tdef.f_hash ≡ key ht i
  same_digest_at i tf tf' e same =
      ap (λ (t : TfileDef). t.f_hash) same
      ∙ ap (λ (t : Tfile). t.tdef.f_hash) (sym (get_or_of_get_elem? ht.table i blank e))

  abbrev Opens : ℤ × Option Pointer × Htable → Type 0
  Opens (size, p, ht') = IsValid ht'

  abbrev Saves : ℤ × Htable → Type 0
  Saves (status, ht') = IsValid ht'

  open_found-IsValid : (c : ℤ) (i : ℕ) → Post Opens (open_found os ht c i)
  unfolding open_found
  open_found-IsValid c i = elim (Option-cases (get_elem? ht.table i)) [
    | inl e ↦ rw e tt
    | inr (tf, e) ↦ rw e (
        Post-bind (λ (r : Bool × Tfile). r.1.tdef ≡ tf.tdef) Opens (map_tfile os tf) _
          (map_tfile-tdef os tf) (written tf e))
  ]
    where
      written :
          (tf : Tfile)
          → get_elem? ht.table i ≡ some tf
          → (r : Bool × Tfile) → r.1.tdef ≡ tf.tdef
          → Post Opens (
              if r.0
              then (do
                offset ← in_off_t (c *ℤ quot_ℤ tf.tdef.size num_chunks)
                ok (
                  chunk_size_of tf.tdef.size c,
                  some (record { slot = i; offset = offset }),
                  put ht i r.1,
                ))
              else ok (failed, none, put ht i r.1))
      written tf e (true, tf') same =
          Post-bind (λ _. Unit {0}) Opens (in_off_t (c *ℤ quot_ℤ tf.tdef.size num_chunks)) _
            (Post-any _) (λ offset u. put-IsValid ht i tf' (same_digest_at i tf tf' e same) v)
      written tf e (false, tf') same = put-IsValid ht i tf' (same_digest_at i tf tf' e same) v

  save_found-IsValid : (i : ℕ) → Post Saves (save_found os ht i)
  unfolding save_found
  save_found-IsValid i = elim (Option-cases (get_elem? ht.table i)) [
    | inl e ↦ rw e tt
    | inr (tf, e) ↦
        let tf' = record tf { m_location = none } in
        let valid = put-IsValid ht i tf' (same_digest_at i tf tf' e refl) v in
        rw e (ground (arith, valid))
  ]

  -- Whatever open_tfile returns from a valid table, the table is valid afterwards.
  pub open_tfile-IsValid : (d : Digest) (c : ℤ) → Post Opens (open_tfile os ht d c)
  unfolding open_tfile
  open_tfile-IsValid d c = elim (Bool-cases (leb_ℤ (pos num_chunks) c)) [
    | inl past ↦ rw past v
    | inr within ↦ rw within (
        Post-bind (λ _. Unit {0}) Opens (search_htable ht d) _ (Post-any (search_htable ht d))
          (elim [ none ↦ λ _. v | some i ↦ λ _. open_found-IsValid c i ]))
  ]

  -- Whatever save_tfile returns from a valid table, the table is valid afterwards.
  pub save_tfile-IsValid : (d : Digest) → Post Saves (save_tfile os ht d)
  unfolding save_tfile
  save_tfile-IsValid d =
      Post-bind (λ _. Unit {0}) Saves (search_htable ht d) _ (Post-any (search_htable ht d))
        (elim [ none ↦ λ _. v | some i ↦ λ _. save_found-IsValid i ])
