-- ===== src/Report/Messages.antt =====
-- The messages of the scanner, whose fields stand between `|||` (`report_openvas_results` of
-- ospd_openvas/daemon.py).
use ospd_openvas.Prelude.{
  refl, ap, none, false, some, ◌∙◌, ◌++◌, arith, ◌≡◌, ◌∷◌, ℕ, All, [], List, Option,
}
use ospd_openvas.Report.{first_char, read_message, RawResult, split_at}
use ospd_openvas.Py.Result.{ok}
use ospd_openvas.Kb.Redis.{head_of}
use ospd_openvas.Py.Text.{codes, starts_with, has_char, Text}

abbrev pub separator : Text
separator = codes "|||"

-- The fields behind one another, with the separator between them.
abbrev pub glue : List Text → Text
glue [] = []
glue (field ∷ []) = field
glue (field ∷ next ∷ fields) = field ++ (separator ++ glue (next ∷ fields))

-- The bar does not stand in the field.
abbrev pub HasNoBar : Text → Type 0
HasNoBar field = has_char b'|' field ≡ false

bar_first : (c : ℕ) (s t : Text) → HasNoBar (c ∷ s) → starts_with (c ∷ t) separator ≡ false
unfolding has_char starts_with
bar_first c s t h = ground (arith, h)

bar_rest : (c : ℕ) (s : Text) → HasNoBar (c ∷ s) → HasNoBar s
unfolding has_char
bar_rest c s h = ground (arith, h)

split_at_step :
    (c : ℕ) (t : Text)
    → starts_with (c ∷ t) separator ≡ false
    → split_at separator 0 (c ∷ t) ≡ first_char c (split_at separator 0 t)
unfolding split_at
split_at_step c t e = ground (arith, e)

split_at-last : (field : Text) → HasNoBar field → split_at separator 0 field ≡ field ∷ []
unfolding split_at
split_at-last [] h = refl
split_at-last (c ∷ field) h =
    split_at_step c field (bar_first c field field h)
    ∙ ap (first_char c) (split_at-last field (bar_rest c field h))

split_at-append :
    (field rest : Text)
    → HasNoBar field
    → split_at separator 0 (field ++ (separator ++ rest)) ≡ field ∷ split_at separator 0 rest
unfolding split_at starts_with
split_at-append [] rest h = refl
split_at-append (c ∷ field) rest h =
    split_at_step c (field ++ (separator ++ rest))
      (bar_first c field (field ++ (separator ++ rest)) h)
    ∙ ap (first_char c) (split_at-append field rest (bar_rest c field h))

split_at-glue :
    (field : Text) (fields : List Text)
    → All HasNoBar (field ∷ fields)
    → split_at separator 0 (glue (field ∷ fields)) ≡ field ∷ fields
split_at-glue field [] (h, _) = split_at-last field h
split_at-glue field (next ∷ fields) (h, hs) =
    split_at-append field (glue (next ∷ fields)) h
    ∙ ap (λ l. field ∷ l) (split_at-glue next fields hs)

abbrev uri_field : Option Text → List Text
uri_field none = []
uri_field (some uri) = uri ∷ []

-- The fields in the order of the message.
abbrev pub fields_of : RawResult → List Text
fields_of raw =
    raw.result_type
    ∷ raw.host_ip
    ∷ raw.host_name
    ∷ raw.port
    ∷ raw.oid
    ∷ raw.value
    ∷ uri_field raw.uri

head_of_uri : (uri : Option Text) → head_of (uri_field uri) ≡ uri
head_of_uri none = refl
head_of_uri (some uri) = refl

read_fields : (raw : RawResult) → read_message (fields_of raw) ≡ ok raw
read_fields raw = ap (λ uri. ok (record raw { uri = uri })) (head_of_uri raw.uri)

-- A result whose fields have no bar is read back from its message as it was, with its uri if it has
-- one.
pub read_message-glue :
    (raw : RawResult)
    → All HasNoBar (fields_of raw)
    → read_message (split_at (codes "|||") 0 (glue (fields_of raw))) ≡ ok raw
read_message-glue raw h =
    ap read_message (
      split_at-glue raw.result_type
        (raw.host_ip ∷ raw.host_name ∷ raw.port ∷ raw.oid ∷ raw.value ∷ uri_field raw.uri) h)
    ∙ read_fields raw
