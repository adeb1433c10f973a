-- ===== src/Guards/Hosts/Blocks.antt =====
-- `isPublicIpv4` of tools/external/host-classify.mjs, against the reserved blocks of addresses.
use mathlib.Core.Path.{ap₂}
use red_team_agent_orchestra.Common.{
  ℕ, ◌+◌, ◌*◌, ◌-◌, ◌≤◌, String, ◌≡◌, refl, sym, ap, ◌∙◌, Bool, true, false, Bool-cases, inl, inr,
  ◌&&◌, ◌||◌, not, Option, none, some, List, [], ◌∷◌, ◌++◌, any, leb, ltb, eqb, or-false, arith,
}
use red_team_agent_orchestra.Guards.Hosts.{
  Octets, in_range, is_reserved, is_public_ipv4, is_public_address, captured_octets, octets_of,
  parse_ipv4,
}
use red_team_agent_orchestra.Js.Regex.{Match}

-- The number of an address.
abbrev pub address : Octets → ℕ
address o = ((o.a * 256 + o.b) * 256 + o.c) * 256 + o.d

abbrev pub IsAddress : Octets → Type 0
IsAddress o = (o.a ≤ 255) × (o.b ≤ 255) × (o.c ≤ 255) × (o.d ≤ 255)

-- A block of addresses: its first one and how many there are.
abbrev pub within : ℕ → (ℕ × ℕ) → Bool
within n (first, size) = leb first n && ltb n (first + size)

-- 0.0.0.0/8, 10.0.0.0/8, 127.0.0.0/8, 169.254.0.0/16, 172.16.0.0/12, 192.168.0.0/16, 100.64.0.0/10,
-- 192.0.2.0/24, 198.18.0.0/15, 198.51.100.0/24, 203.0.113.0/24 and 224.0.0.0/3.
abbrev pub reserved_blocks : List (ℕ × ℕ)
reserved_blocks =
    (0x00000000, 0x1000000)
    ∷ (0x0a000000, 0x1000000)
    ∷ (0x7f000000, 0x1000000)
    ∷ (0xa9fe0000, 0x10000)
    ∷ (0xac100000, 0x100000)
    ∷ (0xc0a80000, 0x10000)
    ∷ (0x64400000, 0x400000)
    ∷ (0xc0000200, 0x100)
    ∷ (0xc6120000, 0x20000)
    ∷ (0xc6336400, 0x100)
    ∷ (0xcb007100, 0x100)
    ∷ (0xe0000000, 0x20000000)
    ∷ []

module _ (a b c d n : ℕ) (hb : b ≤ 255) (hc : c ≤ 255) (hd : d ≤ 255) where
  abbrev number : ℕ
  number = ((a * 256 + b) * 256 + c) * 256 + d

  -- All addresses that start with `n`.
  first_octet : eqb a n ≡ within number (n * 16777216, 16777216)
  first_octet = ground arith

  -- Those whose second octet is between two others.
  second_octet :
      (low high : ℕ)
      → leb low high ≡ true
      → leb high 255 ≡ true
      → (eqb a n && (leb low b && leb b high))
        ≡ within number (n * 16777216 + low * 65536, (high - low + 1) * 65536)
  second_octet low high lh hh = ground arith

  -- Those with given second and third octets.
  third_octet :
      (m k : ℕ)
      → leb m 255 ≡ true
      → leb k 255 ≡ true
      → (eqb a n && eqb b m && eqb c k) ≡ within number (n * 16777216 + m * 65536 + k * 256, 256)
  third_octet m k hm hk = ground arith

  last_block : a ≤ 255 → leb 224 a ≡ within number (0xe0000000, 0x20000000)
  last_block ha = ground arith

two_between :
    (a n b m : ℕ)
    → (eqb a n && (eqb b m || eqb b (m + 1))) ≡ (eqb a n && (leb m b && leb b (m + 1)))
two_between a n b m = ground arith

one_between : (a n b m : ℕ) → (eqb a n && eqb b m) ≡ (eqb a n && (leb m b && leb b m))
one_between a n b m = ground arith

and_assoc : (x y z : Bool) → (x && y && z) ≡ (x && (y && z))
and_assoc x y z = ground arith

any-snoc :
    {A : Type 0} (p : A → Bool) (xs : List A) (x : A) → any p (xs ++ x ∷ []) ≡ (any p xs || p x)
any-snoc p [] x = ground arith
any-snoc p (y ∷ xs) x = ground (arith, any-snoc p xs x)

-- A test that is whether `n` is in one of some blocks.
abbrev Covered : ℕ → Bool → Type 0
Covered n test = (blocks : List (ℕ × ℕ)) × (test ≡ any (within n) blocks)

start : (n : ℕ) (block : ℕ × ℕ) (test : Bool) → test ≡ within n block → Covered n test
start n block test e = (block ∷ [], ground (arith, e))

-- One block more.
another :
    (n : ℕ) (before : Bool)
    → Covered n before
    → (block : ℕ × ℕ) (test : Bool) → test ≡ within n block
    → Covered n (before || test)
another n before (blocks, e) block test f =
    (blocks ++ block ∷ [], ap₂ (λ x y. x || y) e f ∙ sym (any-snoc (within n) blocks block))

reserved-blocks :
    (o : Octets) → IsAddress o → is_reserved o ≡ any (within (address o)) reserved_blocks
unfolding is_reserved another start
reserved-blocks o (ha, hb, hc, hd) =
    let first = λ (n : ℕ). first_octet o.a o.b o.c o.d n hb hc hd in
    let second = λ (n : ℕ). second_octet o.a o.b o.c o.d n hb hc hd in
    let third = λ (n : ℕ). third_octet o.a o.b o.c o.d n hb hc hd in
    let n = address o in
    let covered1 = start n (0x00000000, 0x1000000) _ (first 0) in
    let covered2 = another n _ covered1 (0x0a000000, 0x1000000) _ (first 10) in
    let covered3 = another n _ covered2 (0x7f000000, 0x1000000) _ (first 127) in
    let covered4 =
      another n _ covered3 (0xa9fe0000, 0x10000) _
        (one_between o.a 169 o.b 254 ∙ second 169 254 254 refl refl) in
    let covered5 =
      another n _ covered4 (0xac100000, 0x100000) _
        (and_assoc (eqb o.a 172) (leb 16 o.b) (leb o.b 31) ∙ second 172 16 31 refl refl) in
    let covered6 =
      another n _ covered5 (0xc0a80000, 0x10000) _
        (one_between o.a 192 o.b 168 ∙ second 192 168 168 refl refl) in
    let covered7 =
      another n _ covered6 (0x64400000, 0x400000) _
        (and_assoc (eqb o.a 100) (leb 64 o.b) (leb o.b 127) ∙ second 100 64 127 refl refl) in
    let covered8 = another n _ covered7 (0xc0000200, 0x100) _ (third 192 0 2 refl refl) in
    let covered9 =
      another n _ covered8 (0xc6120000, 0x20000) _
        (two_between o.a 198 o.b 18 ∙ second 198 18 19 refl refl) in
    let covered10 = another n _ covered9 (0xc6336400, 0x100) _ (third 198 51 100 refl refl) in
    let covered11 = another n _ covered10 (0xcb007100, 0x100) _ (third 203 0 113 refl refl) in
    let covered12 =
      another n _ covered11 (0xe0000000, 0x20000000) _ (last_block o.a o.b o.c o.d 0 hb hc hd ha) in
    covered12.1

small : (n : ℕ) → ltb 255 n ≡ false → n ≤ 255
small n e = ground arith

in_range-IsAddress :
    (o : Octets) → any (λ n. ltb 255 n) (o.a ∷ o.b ∷ o.c ∷ o.d ∷ []) ≡ false → IsAddress o
in_range-IsAddress o e =
    let (a, e1) = or-false _ _ e in
    let (b, e2) = or-false _ _ e1 in
    let (c, e3) = or-false _ _ e2 in
    let (d, e4) = or-false _ _ e3 in (small o.a a, small o.b b, small o.c c, small o.d d)

-- Whether an address that parses is outside of all reserved blocks.
abbrev pub is_outside : Option Octets → Bool
is_outside none = false
is_outside (some o) = not (any (within (address o)) reserved_blocks)

in_range-outside : (o : Octets) → is_public_address (in_range o) ≡ is_outside (in_range o)
unfolding in_range
in_range-outside o = elim (Bool-cases (any (λ n. ltb 255 n) (o.a ∷ o.b ∷ o.c ∷ o.d ∷ []))) [
  | inl e ↦ rw e refl
  | inr e ↦ rw e (ap not (reserved-blocks o (in_range-IsAddress o e)))
]

octets-outside : (m : Option Match) → is_public_address (octets_of m) ≡ is_outside (octets_of m)
octets-outside none = refl
octets-outside (some m) = in_range-outside (captured_octets m)

-- isPublicIpv4 takes a text for public exactly if it parses as an address and the address, as a
-- number, is in none of the reserved blocks.
pub is_public_ipv4-blocks : (s : String) → is_public_ipv4 s ≡ is_outside (parse_ipv4 s)
unfolding is_public_ipv4 parse_ipv4
is_public_ipv4-blocks s = octets-outside _
