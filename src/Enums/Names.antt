-- ===== src/Enums/Names.antt =====
-- The names of src/util/enums.hh read back as what they name.
use seastar_live.Prelude.{
  ℕ, ◌≡◌, refl, ◌≢◌, inl, inr, none, List, [], ◌∷◌, arith, ◌==◌, ==_iff, Bool-cases,
}
use Prim.Native.String.{String}
use text.Mathlib.TextEquality.{eq_iff}
use seastar_live.Enums.{
  switch, protocol_to_string, str2protocol, media_type_to_string, str2media, str2format, find_index,
  find_format, convert_to_protocol,
}

abbrev pub AllCases {ℓ κ} : {A : Type ℓ} → (ℕ → A → Type κ) → List (ℕ × A) → Type κ
AllCases P [] = Unit
AllCases P ((k, a) ∷ cs) = P k a × AllCases P cs

-- What holds of the values of a `switch` holds of its result.
pub switch-all {ℓ κ} :
    {A : Type ℓ} (P : ℕ → A → Type κ) (cs : List (ℕ × A)) (last : A) (v : ℕ)
    → AllCases P cs
    → P v last
    → P v (switch cs last v)
unfolding switch
switch-all P [] last v h d = d
switch-all P ((k, a) ∷ cs) last v (c, h) d = elim (Bool-cases (v == k)) [
  | inl e ↦ rw (e, (==_iff v k).0 e) c
  | inr e ↦ rw e (switch-all P cs last v h d)
]

-- The name of a protocol that has one reads back as the protocol.
str2protocol-protocol_to_string :
    (p : ℕ) → protocol_to_string p ≢ "" → str2protocol (protocol_to_string p) ≡ p
unfolding protocol_to_string str2protocol find_index convert_to_protocol switch
str2protocol-protocol_to_string p =
    switch-all (λ v name. name ≢ "" → str2protocol name ≡ v)
      ((1, "TCP")
        ∷ (16, "HTTP1")
        ∷ (32, "HTTP2")
        ∷ (128, "HTTP3")
        ∷ (2, "RTMP")
        ∷ (4, "SRT")
        ∷ (8, "FILE")
        ∷ [])
      "" p
      (
        (λ _. refl),
        (
          (λ _. refl),
          ((λ _. refl), ((λ _. refl), ((λ _. refl), ((λ _. refl), ((λ _. refl), tt))))),
        ),
      )
      (λ n. absurd (n refl))

-- The name of a media type but `none` reads back as the media type.
pub str2media-media_type_to_string :
    (t : ℕ) → media_type_to_string t ≢ "none" → str2media (media_type_to_string t) ≡ t
unfolding media_type_to_string str2media find_index switch
str2media-media_type_to_string t =
    switch-all (λ v name. name ≢ "none" → str2media name ≡ v)
      ((4, "audio") ∷ (1, "video") ∷ (5, "all") ∷ []) "none" t
      ((λ _. refl), ((λ _. refl), ((λ _. refl), tt))) (λ n. absurd (n refl))

-- A text that is not a format's name, nor "ignored", makes `str2format` read past its array.
str2format_past_end : (s : String) → s ≢ "flv" → s ≢ "hls" → s ≢ "ignored" → str2format s ≡ none
unfolding str2format find_format
str2format_past_end s a b c = ground (arith, eq_iff "flv" s, eq_iff "hls" s, eq_iff "ignored" s)
