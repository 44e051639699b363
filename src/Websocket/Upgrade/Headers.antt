-- ===== src/Websocket/Upgrade/Headers.antt =====
-- The accept key that a response of upstream gives.
use local_network_ecosystem.Prelude.{
  ◌≡◌, refl, sym, ap, ◌∙◌, Option, none, some, List, [], ◌∷◌, arith, if◌then◌else◌, string_eq,
  nat_eq, Bool-cases, Option-cases, inl, inr, All, ◌++◌, ◌⊎◌,
}
use local_network_ecosystem.Protocol.{codes}
use local_network_ecosystem.Websocket.Upgrade.{Text, Library, same_text, read_headers, partition}

-- The value of a line that is a header with the name sec-websocket-accept.
abbrev pub accept_value : Library → Text → Option Text
accept_value lib line = elim (partition 58 line).1 [
  | none ↦ none
  | some v ↦
      if same_text (lib.lower (lib.strip (partition 58 line).0)) (codes "sec-websocket-accept")
      then some (lib.strip v)
      else none
]

-- The last of these lines that is such a header has this value.
pub record IsLast (lib : Library) (lines : List Text) (accept : Text) : Type 0 where
  pub before : List Text
  pub line : Text
  pub behind : List Text
  pub split : lines ≡ before ++ line ∷ behind
  pub value : accept_value lib line ≡ some accept
  pub apart : All (λ l. accept_value lib l ≡ none) behind

-- None of these lines is such a header.
abbrev pub IsWithout : Library → List Text → Type 0
IsWithout lib lines = All (λ l. accept_value lib l ≡ none) lines

-- The accept key that the lines give: none of them gives one and it is empty, or the last that does gives it.
abbrev pub IsSent : Library → List Text → Text → Type 0
IsSent lib lines accept = (IsWithout lib lines × (accept ≡ [])) ⊎ IsLast lib lines accept

-- A line that is not the header leaves the accept key that was read.
read_headers-other :
    (lib : Library) (line : Text) (lines : List Text) (accept protocol : Text)
    → accept_value lib line ≡ none
    → (protocol' : Text) × (read_headers lib (line ∷ lines) (accept, protocol)
        ≡ read_headers lib lines (accept, protocol'))
unfolding read_headers
read_headers-other lib line lines accept protocol h = elim (Option-cases (partition 58 line).1) [
  | inl e ↦ (protocol, ground (arith, e))
  | inr (v, e) ↦
      elim (Bool-cases (
        same_text (lib.lower (lib.strip (partition 58 line).0)) (codes "sec-websocket-protocol"))) [
          | inl names_protocol ↦ (lib.strip v, ground (arith, e, names_protocol, h))
          | inr another ↦ (protocol, ground (arith, e, another, h))
        ]
]

read_headers-accept :
    (lib : Library) (line : Text) (lines : List Text) (accept protocol value : Text)
    → accept_value lib line ≡ some value
    → read_headers lib (line ∷ lines) (accept, protocol) ≡ read_headers lib lines (value, protocol)
unfolding read_headers
read_headers-accept lib line lines accept protocol value h = ground arith

-- What the loop over the lines has read, from an accept key on.
pub read_headers-sent :
    (lib : Library) (lines : List Text) (accept protocol : Text)
    → (IsWithout lib lines × ((read_headers lib lines (accept, protocol)).0 ≡ accept))
      ⊎ IsLast lib lines (read_headers lib lines (accept, protocol)).0
read_headers-sent lib [] accept protocol = unfold read_headers in inl (tt, refl)
read_headers-sent lib (line ∷ lines) accept protocol = elim (Option-cases (accept_value lib line)) [
  | inl another ↦
      let (protocol', e) = read_headers-other lib line lines accept protocol another in
      rw e (elim (read_headers-sent lib lines accept protocol') [
        | inl (without, kept) ↦ inl ((another, without), kept)
        | inr h ↦ inr (record {
          before = line ∷ h.before;
          line = h.line;
          behind = h.behind;
          split = ap (λ ls. line ∷ ls) h.split;
          value = h.value;
          apart = h.apart;
        })
      ])
  | inr (value, e) ↦
      rw (read_headers-accept lib line lines accept protocol value e)
        (elim (read_headers-sent lib lines value protocol) [
          | inl (without, kept) ↦ inr (record {
            before = [];
            line = line;
            behind = lines;
            split = refl;
            value = e ∙ ap some (sym kept);
            apart = without;
          })
          | inr h ↦ inr (record {
            before = line ∷ h.before;
            line = h.line;
            behind = h.behind;
            split = ap (λ ls. line ∷ ls) h.split;
            value = h.value;
            apart = h.apart;
          })
        ])
]
