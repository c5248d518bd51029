-- ===== src/Storage/RoundTrip.antt =====
-- What `_encode_catalog` writes `_decode_catalog` reads back.
use linux_rag_t.Prelude.{
  ◌∙◌, ap, code, map, chars, eqb, ℕ, refl, none, some, ok, false, [], ◌∷◌, All, Char, List, Option,
  Result, String, of_chars, ◌≡◌,
}
use linux_rag_t.Ports.Ingestion.{
  man, kiwix, info, pending_validation, active, quarantined, SourceCatalog, SourceRecord,
  SourceSnapshot, SourceStatus, SourceType, type_value,
}
use linux_rag_t.Json.{items_of, text, Json, Codec, list_of-values_of, json_list, optional_text}
use linux_rag_t.Storage.{
  as_optional, decode_all, decode_catalog, decode_datetime, decode_each, decode_record,
  decode_snapshot, encode_catalog, encode_record, encode_snapshot, replace_z, source_status,
  source_type, status_value,
}

-- `isoformat` of a time in UTC has no letter Z, and `fromisoformat` reads it back.
pub record IsCodec (c : Codec) : Type 0 where
  pub reads : (t : ℕ) → c.fromisoformat (c.isoformat t) ≡ ok t
  pub plain : (t : ℕ) → All (λ ch. eqb (code ch) b'Z' ≡ false) (chars (c.isoformat t))

of_chars-chars : (s : String) → of_chars (chars s) ≡ s
unfolding of_chars
of_chars-chars String.[] = refl
of_chars-chars (String.◌∷◌ c s) = ap (String.◌∷◌ c) (of_chars-chars s)

replace_z_plain : (l : List Char) → All (λ ch. eqb (code ch) b'Z' ≡ false) l → replace_z l ≡ l
unfolding replace_z
replace_z_plain [] h = refl
replace_z_plain (c ∷ l) h = rw h.0 (ap (◌∷◌ c) (replace_z_plain l h.1))

pub source_type-type_value :
    (c : Codec) (t : SourceType) → source_type c (text (type_value t)) ≡ ok t
unfolding source_type
source_type-type_value c man = refl
source_type-type_value c kiwix = refl
source_type-type_value c info = refl

source_status-status_value :
    (c : Codec) (s : SourceStatus) → source_status c (text (status_value s)) ≡ ok s
unfolding source_status
source_status-status_value c pending_validation = refl
source_status-status_value c active = refl
source_status-status_value c quarantined = refl
source_status-status_value c SourceStatus.error = refl

as_optional-optional_text : (o : Option String) → as_optional (optional_text o) ≡ ok o
as_optional-optional_text none = refl
as_optional-optional_text (some s) = refl

module _ (c : Codec) (law : IsCodec c) where
  decode_datetime-isoformat : (t : ℕ) → decode_datetime c (text (c.isoformat t)) ≡ ok t
  unfolding decode_datetime
  decode_datetime-isoformat t =
      ap (λ l. c.fromisoformat (of_chars l)) (replace_z_plain (chars (c.isoformat t)) (law.plain t))
      ∙ ap c.fromisoformat (of_chars-chars (c.isoformat t))
      ∙ law.reads t

  pub decode_record-encode_record : (r : SourceRecord) → decode_record c (encode_record c r) ≡ ok r
  unfolding decode_record encode_record
  decode_record-encode_record r = simp (
    source_type-type_value, source_status-status_value, decode_datetime-isoformat,
    as_optional-optional_text,
  )

  decode_snapshot-encode_snapshot :
      (s : SourceSnapshot) → decode_snapshot c (encode_snapshot c s) ≡ ok s
  unfolding decode_snapshot encode_snapshot
  decode_snapshot-encode_snapshot s = refl

  decode_each-map {ℓ} :
      {A : Type ℓ} (encode : A → Json) (decode : Json → Result A)
      → ((a : A) → decode (encode a) ≡ ok a)
      → (l : List A) → decode_each decode (map encode l) ≡ ok l
  unfolding decode_each
  decode_each-map encode decode h [] = refl
  decode_each-map encode decode h (a ∷ l) = rw (h a, decode_each-map encode decode h l)

  decode_all-map {ℓ} :
      {A : Type ℓ} (encode : A → Json) (decode : Json → Result A)
      → ((a : A) → decode (encode a) ≡ ok a)
      → (l : List A) → decode_all decode (json_list (map encode l)) ≡ ok l
  unfolding decode_all items_of
  decode_all-map encode decode h l = rw list_of-values_of (decode_each-map encode decode h l)

  pub decode_catalog-encode_catalog :
      (catalog : SourceCatalog) → decode_catalog c (encode_catalog c catalog) ≡ ok catalog
  unfolding decode_catalog encode_catalog
  decode_catalog-encode_catalog catalog = simp (
    decode_datetime-isoformat,
    decode_all-map (encode_record c) (decode_record c) decode_record-encode_record,
    decode_all-map (encode_snapshot c) (decode_snapshot c) decode_snapshot-encode_snapshot,
  )
