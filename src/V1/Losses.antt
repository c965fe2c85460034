-- ===== src/V1/Losses.antt =====
-- What an accepted V1 item keeps and loses between `ParseHumanReadableRvJSON` and
-- `ConvertRvInstructionsToV1JSON`.
use go_fdo_server.Prelude.{
  ℕ, ◌≡◌, ◌≢◌, refl, ◌∙◌, inl, inr, false, ◌&&◌, Option, List, [], ◌∷◌, ◌++◌, Text, codes, Result,
  ok, err, ◌>>=◌, >>=-eq-ok, Result-cases, Bool-cases, Option-cases, arith, ◌=ᵇ◌, =ᵇ_iff,
}
use go_fdo_server.Rv.{dns, ip_address, dev_port, owner_port, user_input, ext_rv, RvInstruction}
use go_fdo_server.Rv.Cbor.{Platform, encode_rv_value}
use go_fdo_server.V1.Human.{
  RvHuman, text_part, protocol_part, medium_part, port_part, endpoint_group, option_group,
  parse_item,
}
use go_fdo_server.V1.Convert.{
  ConvertError, set_variable, not_unmarshalled, convert_instructions, empty_item,
}
use go_fdo_server.V2.Shape.{HasAddress}

abbrev pub IsErr : Result ConvertError RvHuman → Type 0
IsErr r = (e : ConvertError) × (r ≡ err e)

HasAddress-append_left : (xs ys : List RvInstruction) → HasAddress xs → HasAddress (xs ++ ys)
HasAddress-append_left [] ys h = absurd h
HasAddress-append_left (x ∷ xs) ys (inl h) = inl h
HasAddress-append_left (x ∷ xs) ys (inr h) = inr (HasAddress-append_left xs ys h)

HasAddress-append_right : (xs ys : List RvInstruction) → HasAddress ys → HasAddress (xs ++ ys)
HasAddress-append_right [] ys h = h
HasAddress-append_right (x ∷ xs) ys h = inr (HasAddress-append_right xs ys h)

module _ (p : Platform) where
  text_part-dns :
      (s : Text) {a : List RvInstruction} → text_part p dns s ≡ ok a → (s ≢ []) → HasAddress a
  unfolding text_part encode_rv_value
  text_part-dns s h k = ground (arith, =ᵇ_iff s [])

  text_part-ip_address :
      (s : Text) {a : List RvInstruction}
      → text_part p ip_address s ≡ ok a
      → (s ≢ [])
      → HasAddress a
  unfolding text_part encode_rv_value
  text_part-ip_address s h k = ground (arith, =ᵇ_iff s [])

  -- The parts of an accepted item's group.
  parse_item_inv :
      (i : ℕ) (item : RvHuman) {g : List RvInstruction}
      → parse_item p i item ≡ ok g
      → (a b c d : List RvInstruction) × (endpoint_group p item ≡ ok a)
        × (text_part p user_input item.user_input_text ≡ ok c)
        × (text_part p ext_rv item.ext_rv_text ≡ ok d)
        × (g ≡ a ++ (b ++ (c ++ d)))
        × (((item.dns_name =ᵇ []) && (item.ip =ᵇ [])) ≡ false)
  unfolding parse_item
  parse_item_inv i item h = elim (Bool-cases ((item.dns_name =ᵇ []) && (item.ip =ᵇ []))) [
    | inl none_given ↦ ground arith
    | inr given ↦
        let (a, ha, h1) = >>=-eq-ok (endpoint_group p item) _ (rw given at h) in
        let (b, hb, h2) = >>=-eq-ok (option_group p item) _ h1 in
        let (c, hc, h3) = >>=-eq-ok (text_part p user_input item.user_input_text) _ h2 in
        let (d, hd, h4) = >>=-eq-ok (text_part p ext_rv item.ext_rv_text) _ h3 in
        (a, b, c, d, ha, hc, hd, cc h4, given)
  ]

  endpoint_group-HasAddress :
      (item : RvHuman) {g : List RvInstruction}
      → endpoint_group p item ≡ ok g
      → ((item.dns_name =ᵇ []) && (item.ip =ᵇ [])) ≡ false
      → HasAddress g
  unfolding endpoint_group
  endpoint_group-HasAddress item {g} h given =
      let (a, ha, h1) = >>=-eq-ok (text_part p dns item.dns_name) _ h in
      let (b, hb, h2) = >>=-eq-ok (text_part p ip_address item.ip) _ h1 in
      let (c, hc, h3) = >>=-eq-ok (protocol_part p item.protocol_name) _ h2 in
      let (d, hd, h4) = >>=-eq-ok (medium_part p item.medium_name) _ h3 in
      let (e, he, h5) = >>=-eq-ok (port_part p dev_port item.device_port) _ h4 in
      let (f, hf, h6) = >>=-eq-ok (port_part p owner_port item.owner_port_text) _ h5 in
      let same : g ≡ a ++ (b ++ (c ++ (d ++ (e ++ f)))) = cc h6 in
      rw same (elim (Bool-cases (item.dns_name =ᵇ [])) [
        | inl no_dns ↦ HasAddress-append_right a _ (
            HasAddress-append_left b _
              (text_part-ip_address item.ip hb (ground (arith, =ᵇ_iff item.ip []))))
        | inr some_dns ↦
            HasAddress-append_left a _
              (text_part-dns item.dns_name ha (ground (arith, =ᵇ_iff item.dns_name [])))
      ])

  -- Each accepted V1 item names a DNS name or an IP address among its instructions.
  pub parse_item-HasAddress :
      (i : ℕ) (item : RvHuman) {g : List RvInstruction} → parse_item p i item ≡ ok g → HasAddress g
  parse_item-HasAddress i item h =
      let (a, b, c, d, ha, hc, hd, same, given) = parse_item_inv i item h in
      rw same (HasAddress-append_left a _ (endpoint_group-HasAddress item ha given))

  module _ (json_texts : List Text → Option Text) where
    convert-nil : (acc : RvHuman) → convert_instructions p json_texts [] acc ≡ ok acc
    unfolding convert_instructions
    convert-nil acc = refl

    convert-cons :
        (x : RvInstruction) (xs : List RvInstruction) (acc : RvHuman)
        → convert_instructions p json_texts (x ∷ xs) acc ≡ (
            set_variable p json_texts x.variable x.value acc
            >>= convert_instructions p json_texts xs)
    unfolding convert_instructions
    convert-cons x xs acc = refl

    convert-append :
        (xs ys : List RvInstruction) (acc : RvHuman)
        → convert_instructions p json_texts (xs ++ ys) acc
          ≡ (convert_instructions p json_texts xs acc >>= convert_instructions p json_texts ys)
    convert-append [] ys acc = unfold convert_instructions in refl
    convert-append (x ∷ xs) ys acc =
        elim (Result-cases (set_variable p json_texts x.variable x.value acc)) [
          | inl (e, bad) ↦ rw (convert-cons x (xs ++ ys) acc, convert-cons x xs acc, bad)
          | inr (m, good) ↦
              rw (convert-cons x (xs ++ ys) acc, convert-cons x xs acc, good)
                (convert-append xs ys m)
        ]

    -- Instructions that fail from every item fail behind any others.
    convert-append-IsErr :
        (xs ys : List RvInstruction) (acc : RvHuman)
        → ((item : RvHuman) → IsErr (convert_instructions p json_texts ys item))
        → IsErr (convert_instructions p json_texts (xs ++ ys) acc)
    convert-append-IsErr xs ys acc h =
        elim (Result-cases (convert_instructions p json_texts xs acc)) [
          | inl (e, bad) ↦ (e, convert-append xs ys acc ∙ rw bad)
          | inr (m, good) ↦ let (e, bad) = h m in (e, convert-append xs ys acc ∙ rw good bad)
        ]

    convert-ext_rv :
        (s : Text) {d : List RvInstruction}
        → text_part p ext_rv s ≡ ok d
        → s ≢ []
        → (item : RvHuman) → IsErr (convert_instructions p json_texts d item)
    unfolding text_part encode_rv_value convert_instructions
    convert-ext_rv s h k item = elim (Option-cases (p.cbor.marshal_text s)) [
      | inl failed ↦ ground (arith, =ᵇ_iff s [])
      | inr (enc, marshalled) ↦ (
        not_unmarshalled ext_rv,
        ground (arith, =ᵇ_iff s [], p.cbor.text_is_no_array s enc marshalled),
      )
    ]

    -- An accepted V1 item with a nonempty ext_rv cannot be written back: the conversion fails.
    pub convert-ext_rv-IsErr :
        (i : ℕ) (item : RvHuman) {g : List RvInstruction}
        → parse_item p i item ≡ ok g
        → item.ext_rv_text ≢ []
        → IsErr (convert_instructions p json_texts g empty_item)
    convert-ext_rv-IsErr i item h k =
        let (a, b, c, d, ha, hc, hd, same, given) = parse_item_inv i item h in
        rw same (
          convert-append-IsErr a _ empty_item λ m.
            convert-append-IsErr b _ m
              λ m'. convert-append-IsErr c d m' (convert-ext_rv item.ext_rv_text hd k))

    convert-user_input :
        (s : Text) {c : List RvInstruction}
        → text_part p user_input s ≡ ok c
        → s ≢ []
        → (item : RvHuman)
        → convert_instructions p json_texts c item
          ≡ ok (record item { user_input_text = codes "true" })
    unfolding text_part encode_rv_value convert_instructions
    convert-user_input s h k item = ground (arith, =ᵇ_iff s [])

    convert-no_ext_rv : {d : List RvInstruction} → text_part p ext_rv [] ≡ ok d → d ≡ []
    unfolding text_part ◌=ᵇ◌
    convert-no_ext_rv h = ground arith

    convert-append-eq-ok :
        (xs ys : List RvInstruction) (acc : RvHuman) {r : RvHuman}
        → convert_instructions p json_texts (xs ++ ys) acc ≡ ok r
        → (m : RvHuman) × (convert_instructions p json_texts ys m ≡ ok r)
    convert-append-eq-ok xs ys acc h =
        let (m, _, rest) =
          >>=-eq-ok (convert_instructions p json_texts xs acc)
            (convert_instructions p json_texts ys) (rw (convert-append xs ys acc) at h) in
        (m, rest)

    last-user_input :
        (s t : Text) {c d : List RvInstruction} (n : RvHuman) {written : RvHuman}
        → text_part p user_input s ≡ ok c
        → s ≢ []
        → text_part p ext_rv t ≡ ok d
        → convert_instructions p json_texts (c ++ d) n ≡ ok written
        → written.user_input_text ≡ codes "true"
    last-user_input s t {c} {d} n hc k hd r = elim (Bool-cases (t =ᵇ [])) [
      | inl none_given ↦
          let no_ext : d ≡ [] = convert-no_ext_rv (rw (← (=ᵇ_iff t []).0 none_given) hd) in
          let last : convert_instructions p json_texts (c ++ d) n
              ≡ ok (record n { user_input_text = codes "true" }) =
            rw (no_ext, convert-append c [] n, convert-user_input s hc k n) (convert-nil _) in
          ground (arith, last)
      | inr given ↦
          let (e, bad) =
            convert-append-IsErr c d n (convert-ext_rv t hd (ground (arith, =ᵇ_iff t []))) in
          cc bad
    ]

    -- Whatever text an accepted V1 item has for user_input, the item that is written back has the
    -- text "true".
    pub convert-user_input_true :
        (i : ℕ) (item : RvHuman) {g : List RvInstruction} {written : RvHuman}
        → parse_item p i item ≡ ok g
        → item.user_input_text ≢ []
        → convert_instructions p json_texts g empty_item ≡ ok written
        → written.user_input_text ≡ codes "true"
    convert-user_input_true i item h k w =
        let (a, b, c, d, ha, hc, hd, same, given) = parse_item_inv i item h in
        let (m, after_a) = convert-append-eq-ok a (b ++ (c ++ d)) empty_item (rw same at w) in
        let (n, after_b) = convert-append-eq-ok b (c ++ d) m after_a in
        last-user_input item.user_input_text item.ext_rv_text n hc k hd after_b
