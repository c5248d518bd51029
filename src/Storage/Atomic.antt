-- ===== src/Storage/Atomic.antt =====
-- A save of the catalog, whole or stopped midway, and the load that follows it.
use linux_rag_t.Storage.Disk.{
  torn, make_dir, write_text, later, apply, move, put, perform, Disk, Interrupted, save_ops,
  temp_name,
}
use Prim.Native.String.{count}
use text.Mathlib.TextLemmas.{length-append as count-append}
use linux_rag_t.Prelude.{
  ◌>>=◌, ◌∙◌, ap, ◌+◌, ◌<>◌, ◌⊎◌, ℕ, ◌==◌, refl, some, inl, inr, ok, false, [], arith, ◌∷◌,
  Bool-cases, Option, String, eq_iff, ◌≡◌,
}
use linux_rag_t.Storage.Catalog.{save, load, load_text}
use linux_rag_t.Ports.Ingestion.{SourceCatalog}
use linux_rag_t.Storage.{decode_catalog, encode_catalog}
use linux_rag_t.Json.{Codec}
use linux_rag_t.Prelude.Keyed.{str-eq_refl}
use linux_rag_t.Storage.RoundTrip.{IsCodec, decode_catalog-encode_catalog}

count-temp_name : (f : String) → count (temp_name f) ≡ 1 + (count f + 4)
count-temp_name f = omega (arith, count-append "." (f <> ".tmp"), count-append f ".tmp")

temp_name-ne : (f : String) → (f == temp_name f) ≡ false
temp_name-ne f = elim (Bool-cases (f == temp_name f)) [
  | inl same ↦ absurd (omega (arith, count-temp_name f, ap count ((eq_iff f (temp_name f)).0 same)))
  | inr other ↦ other
]

-- A change of the temporary file alone.
load-put_temp :
    (c : Codec) (f : String) (now : ℕ) (content : Option String) (d : Disk)
    → load c f now (put (temp_name f) content d) ≡ load c f now d
unfolding load
load-put_temp c f now content d = rw (temp_name-ne f)

moved :
    (f s : String) (d : Disk)
    → perform (move (temp_name f) f ∷ []) (put (temp_name f) (some s) d) f ≡ some s
unfolding perform
moved f s d = rw (temp_name-ne f, str-eq_refl f, str-eq_refl (temp_name f))

-- Where the three operations of a save can stop.
pub save_stops :
    {name content to : String} {d e : Disk}
    → Interrupted (make_dir ∷ write_text name content ∷ move name to ∷ []) d e
    → ((part : Option String) × (e ≡ put name part d))
      ⊎ (e ≡ perform (move name to ∷ []) (put name (some content) d))
      ⊎ (e ≡ d)
unfolding perform apply
save_stops Interrupted.stopped = inr (inr refl)
save_stops (later Interrupted.stopped) = inr (inr refl)
save_stops (later (torn part)) = inl (part, refl)
save_stops (later (later Interrupted.stopped)) = inl (_, refl)
save_stops (later (later (later Interrupted.stopped))) = inr (inl refl)

module _ (c : Codec) (law : IsCodec c) (f : String) (now : ℕ) (catalog : SourceCatalog)
    (reads : c.loads (c.dumps (encode_catalog c catalog)) ≡ ok (encode_catalog c catalog)) where
  load_moved :
      (d : Disk)
      → load c f now (
          perform
            (move (temp_name f) f ∷ [])
            (put (temp_name f) (some (c.dumps (encode_catalog c catalog))) d))
        ≡ ok catalog
  unfolding load
  load_moved d =
      ap (load_text c now) (moved f (c.dumps (encode_catalog c catalog)) d)
      ∙ ap (λ r. r >>= decode_catalog c) reads
      ∙ decode_catalog-encode_catalog c law catalog

  -- The catalog that was saved is the one that is loaded.
  pub load-save : (d : Disk) → load c f now (save c f catalog d) ≡ ok catalog
  unfolding save
  load-save d = load_moved d

  -- Wherever a save of the catalog stops because its process ends or an operation raises, between its operations or within the write of the file, a
  -- load gives what it gave before, or the new catalog.
  pub save_atomic :
      (d e : Disk)
      → Interrupted (save_ops c f (encode_catalog c catalog)) d e
      → (load c f now e ≡ load c f now d) ⊎ (load c f now e ≡ ok catalog)
  unfolding save_ops
  save_atomic d e r = elim (save_stops r) [
    | inl (part, here) ↦ inl (ap (load c f now) here ∙ load-put_temp c f now part d)
    | inr (inl here) ↦ inr (ap (load c f now) here ∙ load_moved d)
    | inr (inr here) ↦ inl (ap (load c f now) here)
  ]
