-- ===== src/Domain/Hostname/Shape.antt =====
-- What a normalized hostname is: at least two labels of letters, digits and inner hyphens, in all at
-- most 253 characters, and no address.
use red_forge.Base.{
  ◌≡◌, sym, ap, ◌∙◌, true, false, ◌&&◌, not, Option, none, some, List, [], ◌∷◌, ◌==◌, nat_order,
  leb, length, Text, arith, all, and-true, any, text, text_order,
}
use red_forge.Sdk.Exception.{returns, require->>, >>=-eq-returns, traverse}
use red_forge.Sdk.CapabilityId.{strip}
use red_forge.Domain.Strings.{
  Platform, split, parts_list, join, dot, without_last, starts_with, has_text,
}
use red_forge.Domain.Hostname.{
  normalize_dns_hostname, checked_hostname, labelled_hostname, encoded_hostname, check_label,
  encode_label, is_label, invalid_hostname, is_empty, is_address, is_blank, markers,
}

module _ (p : Platform) where
  -- A name of labels that are valid, two or more, within the bound, and no address.
  abbrev pub IsHostname : Text → Type 0
  IsHostname name =
      (labels : List Text) × (name ≡ join dot labels)
      × (all is_label labels ≡ true)
      × (leb 2 (length labels) ≡ true)
      × (leb (length name) 253 ≡ true)
      × (is_address p name ≡ false)

  check_label-is_label :
      (o : Option Text) (e : Text) → check_label p o ≡ returns e → is_label e ≡ true
  check_label-is_label none e h = absurd (cc)
  check_label-is_label (some s) e h =
      let (t, same) = require->> (is_label s) invalid_hostname _ h in
      let same' : s ≡ e = ground arith in ap is_label (sym same') ∙ t

  traverse-is_label :
      (labels encoded : List Text)
      → traverse (encode_label p) labels ≡ returns encoded
      → (all is_label encoded ≡ true) × (length encoded ≡ length labels)
  unfolding traverse all
  traverse-is_label [] encoded h = let same : [] ≡ encoded = ground arith in ground arith
  traverse-is_label (l ∷ ls) encoded h =
      let (e, one, h') = >>=-eq-returns (encode_label p l) _ h in
      let (es, more, h'') = >>=-eq-returns (traverse (encode_label p) ls) _ h' in
      let same : e ∷ es ≡ encoded = ground arith in
      let rest = traverse-is_label ls es more in
      let head = check_label-is_label (p.idna l) e one in ground arith

  encoded_hostname-IsHostname :
      (labels : List Text) (name : Text)
      → all is_label labels ≡ true
      → leb 2 (length labels) ≡ true
      → encoded_hostname p true labels ≡ returns name
      → IsHostname name
  unfolding encoded_hostname
  encoded_hostname-IsHostname labels name valid several h =
      let (short, h') = require->> (leb (length (join dot labels)) 253) invalid_hostname _ h in
      let (free, h'') = require->> (not (is_address p (join dot labels))) invalid_hostname _ h' in
      let same : join dot labels ≡ name = ground arith in
      (
        labels,
        sym same,
        valid,
        several,
        ap (λ n. leb (length n) 253) (sym same) ∙ short,
        ap (is_address p) (sym same) ∙ (ground arith),
      )

  labelled_hostname-IsHostname :
      (labels : List Text) (name : Text)
      → labelled_hostname p true labels ≡ returns name
      → IsHostname name
  unfolding labelled_hostname
  labelled_hostname-IsHostname labels name h =
      let (shape, h') =
        require->> (leb 2 (length labels) && not (any is_empty labels)) invalid_hostname _ h in
      let (encoded, e, h'') = >>=-eq-returns (traverse (encode_label p) labels) _ h' in
      let (valid, same) = traverse-is_label labels encoded e in
      let (several, _) = and-true shape in
      encoded_hostname-IsHostname encoded name valid (ap (leb 2) same ∙ several) h''

  checked_hostname-IsHostname :
      (hostname name : Text) → checked_hostname p true hostname ≡ returns name → IsHostname name
  unfolding checked_hostname
  checked_hostname-IsHostname hostname name h =
      let (_, h') =
        require->>
          (not (is_empty hostname)
            && leb (length hostname) 253
            && not (starts_with hostname (text "*.")))
          invalid_hostname _ h in
      let (_, h'') = require->> (not (any (has_text hostname) markers)) invalid_hostname _ h' in
      labelled_hostname-IsHostname (parts_list (split dot hostname)) name h''

  -- What `normalize_dns_hostname` returns, addresses refused, consists of two or more labels
  -- joined by dots, each of 1 to 63 ASCII letters, digits and hyphens with no hyphen at an end; it
  -- has at most 253 characters and is not read as an IP address.
  pub normalize_dns_hostname-IsHostname :
      (value name : Text) → normalize_dns_hostname p true value ≡ returns name → IsHostname name
  unfolding normalize_dns_hostname
  normalize_dns_hostname-IsHostname value name h =
      let (_, h') = require->> (not (is_empty value)) invalid_hostname _ h in
      let (_, h'') =
        require->> (value == strip value && not (any is_blank value)) invalid_hostname _ h' in
      checked_hostname-IsHostname (without_last dot (p.lower value)) name h''
