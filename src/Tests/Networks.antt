-- ===== src/Tests/Networks.antt =====
-- A definition that is announced in a line of three nodes and in a triangle.
use grintorrent.Base.{
  ℕ, ◌≤◌, ◌<◌, ◌≡◌, ◌≢◌, refl, sym, ◌∙◌, ap, take, ◌⊎◌, false, Bool-cases, inl, inr, List, [], ◌∷◌,
  map, arith, length, ok, ◌==◌, ==_iff, ==-eq-false, if◌then◌else◌, ℕ_discrete,
}
use grintorrent.Base.Int.{pos}
use grintorrent.Htable.{home}
use grintorrent.Htable.Invariant.{vacancy}
use grintorrent.Peers.{Peers}
use grintorrent.Peers.Add as Add
use grintorrent.Network.{Network, Works, Steps}
use grintorrent.Network.Members.{Has, Lacks}
use grintorrent.Network.Deliveries.{skip}
use grintorrent.Network.Spread.{Walk}
use grintorrent.Network.Announce.{announce, IsQuiet}
use grintorrent.Network.Trees.{weigh}
use grintorrent.Network.Outcomes.{
  announce_spreads, announce_completes, announce_never_ends, length-skip,
}
use grintorrent.Tests.Transfers.{round, round-IsUp, mapped-IsValid, digest, digest_nonzero}
use grintorrent.Tests.Data.{
  no_files, no_files-IsValid, no_files-Absent, one_file, sum_md5, content_def, content_def-IsDef,
  mapped_file, sixteen, sixteen-Progresses, padding,
}

-- The line 0 - 1 - 2; every further node only hears from 1.
abbrev line : ℕ → List ℕ
line n = if n == 1 then 0 ∷ 2 ∷ [] else 1 ∷ []

-- The triangle of 0, 1 and 2.
abbrev triangle : ℕ → List ℕ
triangle n = if n == 0 then 1 ∷ 2 ∷ [] else if n == 1 then 0 ∷ 2 ∷ [] else 0 ∷ 1 ∷ []

abbrev list_peers : List ℕ → Peers
list_peers ks = record { locked = false; capacity = 1; size = length ks; arr = map pos ks }

abbrev quiet_net : (ℕ → List ℕ) → Network
quiet_net neighbours = record {
  members = λ n. record {
    ht = if n == 0 then one_file mapped_file else no_files;
    peers = list_peers (neighbours n);
  };
  flight = [];
}

here : Has content_def (one_file mapped_file)
here = record { valid = mapped-IsValid; room = omega arith; slot = 1; found = refl }

unfoldable pub missing : Lacks content_def no_files
unfolding vacancy home
missing = record {
  valid = no_files-IsValid;
  room = omega arith;
  absent = no_files-Absent content_def.f_hash;
  slot = 1;
  free = refl;
}

table_of :
    (n : ℕ)
    → Has content_def (if n == 0 then one_file mapped_file else no_files)
      ⊎ Lacks content_def (if n == 0 then one_file mapped_file else no_files)
table_of n = elim (Bool-cases (n == 0)) [
  | inl own ↦ rw own (inl here)
  | inr other ↦ rw other (inr missing)
]

not_here : ¬ Has content_def no_files
not_here has = no_files-Absent digest has.slot (λ z. digest_nonzero (sym has.found ∙ z)) has.found

length-pos : (ks : List ℕ) → length (map pos ks) ≡ length ks
length-pos [] = refl
length-pos (k ∷ ks) = omega (arith, length-pos ks)

module _ (neighbours : ℕ → List ℕ) (some_peer : (n : ℕ) → 0 < length (neighbours n)) where
  list_peers-IsValid : (n : ℕ) → Add.IsValid (list_peers (neighbours n))
  list_peers-IsValid n = record {
    free = refl;
    positive = omega arith;
    allocated = omega (arith, some_peer n, length-pos (neighbours n));
    used = omega (arith, length-pos (neighbours n));
  }

  list_peers-fds : (ks : List ℕ) → take (length ks) (map pos ks) ≡ map pos ks
  list_peers-fds [] = refl
  list_peers-fds (k ∷ ks) = ap (◌∷◌ (pos k)) (list_peers-fds ks)

  quiet_net-IsQuiet : IsQuiet content_def neighbours 0 (quiet_net neighbours)
  quiet_net-IsQuiet = record {
    ready = λ n. record {
      table = table_of n;
      peers = list_peers-IsValid n;
      joined = list_peers-fds (neighbours n);
    };
    none = refl;
    origin = here;
    alone = λ n ne has. not_here (rw (==-eq-false n 0 ne) at has);
  }

pub round-Works : Works round
round-Works = record { up = round-IsUp; seven = refl; fuel = 0; runs = refl }

line_some : (n : ℕ) → 0 < length (line n)
line_some n = elim (Bool-cases (n == 1)) [
  | inl own ↦ rw own (omega arith)
  | inr other ↦ rw other (omega arith)
]

skip_two : (f a b : ℕ) → a ≢ b → 0 < length (skip f (a ∷ b ∷ []))
unfolding skip
skip_two f a b ne = elim (Bool-cases (b == f)) [
  | inl own ↦
      let other = ==-eq-false a f (λ e. ne (e ∙ sym ((==_iff b f).0 own))) in
      rw (other, own) (omega arith)
  | inr other ↦ elim (Bool-cases (a == f)) [
    | inl own ↦ rw (own, other) (omega arith)
    | inr other' ↦ rw (other', other) (omega arith)
  ]
]

triangle_two : (f n : ℕ) → 0 < length (skip f (triangle n))
triangle_two f n = elim (Bool-cases (n == 0)) [
  | inl first ↦ rw first (skip_two f 1 2 (λ e. absurd (omega arith)))
  | inr rest ↦ elim (Bool-cases (n == 1)) [
    | inl second ↦ rw (rest, second) (skip_two f 0 2 (λ e. absurd (omega arith)))
    | inr third ↦ rw (rest, third) (skip_two f 0 1 (λ e. absurd (omega arith)))
  ]
]

abbrev weight : ℕ → ℕ → ℕ
weight f n = if n == 1 then 3 else if f == 1 then 1 else 4

lighter : (f n : ℕ) → weigh weight n (skip f (line n)) < weight f n
unfolding skip weigh
lighter f n = elim (Bool-cases (n == 1)) [
  | inl middle ↦ rw (middle, (==_iff n 1).0 middle) (from_middle f)
  | inr edge ↦ rw edge (from_edge f n edge)
]
  where
    from_middle : (f : ℕ) → weigh weight 1 (skip f (0 ∷ 2 ∷ [])) < 3
    from_middle f = elim (Bool-cases (0 == f)) [
      | inl own ↦ elim (Bool-cases (2 == f)) [
        | inl own' ↦ rw (own, own') (omega arith)
        | inr other ↦ rw (own, other) (omega arith)
      ]
      | inr other ↦ elim (Bool-cases (2 == f)) [
        | inl own ↦ rw (other, own) (omega arith)
        | inr other' ↦ rw (other, other') (omega arith)
      ]
    ]

    from_edge :
        (f n : ℕ) → (n == 1) ≡ false → weigh weight n (skip f (1 ∷ [])) < (if f == 1 then 1 else 4)
    from_edge f n edge = elim (ℕ_discrete f 1) [
      | yes e ↦ rw e (omega arith)
      | no ne ↦ rw (==-eq-false 1 f (λ e. ne (sym e)), ==-eq-false f 1 ne) (omega arith)
    ]

announce_spreads_example :
    (start : Network) × (announce (λ k. sixteen) padding content_def 0 (quiet_net line) ≡ ok start)
    × ((c : ℕ) (end : Network)
        → Steps sum_md5 start c end
        → end.flight ≡ []
        → (k : ℕ) → Walk content_def line 0 k
        → Has content_def (end.members k).ht)
announce_spreads_example =
    announce_spreads sum_md5 content_def line digest_nonzero content_def-IsDef 0 (quiet_net line)
      (quiet_net-IsQuiet line line_some) (λ k. sixteen) (λ k. sixteen-Progresses) (λ k. refl)
      padding refl

announce_completes_example :
    (start : Network) × (announce (λ k. sixteen) padding content_def 0 (quiet_net line) ≡ ok start)
    × ((c : ℕ) (end : Network) → Steps sum_md5 start c end → c ≤ weigh weight 0 (line 0))
    × (c : ℕ) × (end : Network) × Steps sum_md5 start c end
    × (end.flight ≡ [])
    × ((k : ℕ) → Walk content_def line 0 k → Has content_def (end.members k).ht)
announce_completes_example =
    announce_completes sum_md5 content_def line digest_nonzero content_def-IsDef 0 (quiet_net line)
      (quiet_net-IsQuiet line line_some) (λ k. sixteen) (λ k. sixteen-Progresses) (λ k. refl)
      padding refl weight round round-Works lighter

announce_never_ends_example :
    (start : Network) × (announce (λ k. sixteen) padding content_def 0 (quiet_net triangle)
      ≡ ok start)
    × ((c : ℕ) → (end : Network) × Steps sum_md5 start c end)
    × ((c : ℕ) (end : Network) → Steps sum_md5 start c end → 2 ≤ length end.flight)
announce_never_ends_example =
    announce_never_ends sum_md5 content_def triangle digest_nonzero content_def-IsDef 0
      (quiet_net triangle)
      (quiet_net-IsQuiet triangle
        (λ n. omega (arith, triangle_two n n, length-skip n (triangle n))))
      (λ k. sixteen) (λ k. sixteen-Progresses) (λ k. refl) padding refl round round-Works
      triangle_two
