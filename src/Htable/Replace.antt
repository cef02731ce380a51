-- ===== src/Htable/Replace.antt =====
-- Writes to an entry that leave its digest alone.
use grintorrent.Base.{
  ℕ, zero, suc, ◌<◌, ◌≡◌, refl, sym, ◌∙◌, ap, List, [], ◌∷◌, arith, length, get_or, set, length-set,
  get_or-set_self, get_or-set_ne, get_or-beyond, ℕ_discrete, dec_lt, get_elem?, some,
  get_elem?-eq-get_or,
}
use grintorrent.Tfile.{Digest, Tfile, blank}
use grintorrent.Htable.{Htable, home}
use grintorrent.Htable.Probe.{key, Occupied}
use grintorrent.Htable.Invariant.{IsValid, occupied}

-- The table with entry `i` written anew.
abbrev pub put : Htable → ℕ → Tfile → Htable
put ht i tf = record ht { table = set ht.table i tf }

pub set_self : (es : List Tfile) (i : ℕ) → set es i (get_or es i blank) ≡ es
set_self [] i = refl
set_self (e ∷ es) zero = refl
set_self (e ∷ es) (suc i) = ap (◌∷◌ e) (set_self es i)

occupied-set_same :
    (es : List Tfile) (i : ℕ) (e : Tfile)
    → e.tdef.f_hash ≡ (get_or es i blank).tdef.f_hash
    → occupied (set es i e) ≡ occupied es
unfolding occupied
occupied-set_same [] i e same = refl
occupied-set_same (x ∷ es) zero e same = rw same
occupied-set_same (x ∷ es) (suc i) e same = ground (arith, occupied-set_same es i e)

module _ (ht : Htable) (i : ℕ) (tf : Tfile) (same : tf.tdef.f_hash ≡ key ht i) where
  pub key-put : (j : ℕ) → key (put ht i tf) j ≡ key ht j
  key-put j = elim (ℕ_discrete i j) [
    | no ne ↦ ap (λ (e : Tfile). e.tdef.f_hash) (get_or-set_ne ht.table i j tf blank ne)
    | yes e ↦ elim (dec_lt i (length ht.table)) [
      | yes lt ↦
          rw (← e)
            (ap (λ (e : Tfile). e.tdef.f_hash) (get_or-set_self ht.table i tf blank lt) ∙ same)
      | no ge ↦ rw (← e) (
          ap (λ (e : Tfile). e.tdef.f_hash)
            (get_or-beyond (set ht.table i tf) i blank (omega (arith, length-set ht.table i tf))
              ∙ sym (get_or-beyond ht.table i blank (omega arith))))
    ]
  ]

  home-put : (h : Digest) → home (put ht i tf) h ≡ home ht h
  unfolding home
  home-put h = refl

  -- A write that keeps the digest keeps the invariant.
  pub put-IsValid : IsValid ht → IsValid (put ht i tf)
  put-IsValid v = record {
    width = length-set ht.table i tf ∙ v.width;
    positive = v.positive;
    small = v.small;
    counted = v.counted ∙ sym (occupied-set_same ht.table i tf same);
    from_home = λ j occ. rw (home-put, key-put) (v.from_home j (back j occ));
    chained =
        λ j k occ lo hi. forth k (v.chained j k (back j occ) (rw (home-put, key-put) at lo) hi);
    unique = λ j k occ e. v.unique j k (back j occ) (sym (key-put j) ∙ e ∙ key-put k);
  }
    where
      back : (j : ℕ) → Occupied (put ht i tf) j → Occupied ht j
      back j occ z = occ (key-put j ∙ z)

      forth : (j : ℕ) → Occupied ht j → Occupied (put ht i tf) j
      forth j occ z = occ (sym (key-put j) ∙ z)

pub get_elem?-entry :
    (ht : Htable) (i : ℕ)
    → i < length ht.table
    → get_elem? ht.table i ≡ some (get_or ht.table i blank)
get_elem?-entry ht i lt = get_elem?-eq-get_or ht.table i blank lt
