-- ===== src/Tests/SampleX509.antt =====
-- A concrete form of certificates, with which the library behaves as the theorems on certificates
-- take for granted: the fields of a certificate, a zero byte behind each.
use magma_operator.Base.{
  Bool, List, String, [], all, ap, arith, false, if◌then◌else◌, refl, sym, true, ◌&&◌, ◌++◌, ◌<>◌,
  ◌==◌, ◌∙◌, ◌∷◌, ◌≡◌,
}
use magma_operator.Kube.Certificate.{Certificate, KeyUsage}
use magma_operator.Kube.Library.{Library}
use magma_operator.Kube.Prog.{Error, Result, err, new_error, ok}
use magma_operator.Orc8r.Certificates.{key_usages}
use magma_operator.Orc8r.Certificates.Chain.{IsX509Lawful}
use magma_operator.Orc8r.SecretHash.Fields.{is_nul_free, split_fields, split_fields-field}
use magma_operator.Tests.Sample.{sample_library}

abbrev pub usage_flag : Bool → String
usage_flag true = "1"
usage_flag false = "0"

abbrev pub has_usages : Bool → List KeyUsage → Bool
has_usages true (KeyUsage.digital_signature ∷ KeyUsage.key_encipherment ∷ KeyUsage.cert_sign ∷ []) =
    true
has_usages false (KeyUsage.digital_signature ∷ KeyUsage.key_encipherment ∷ []) = true
has_usages _ _ = false

abbrev pub terminate : List String → String
terminate [] = ""
terminate (s ∷ ss) = s <> "\0" <> terminate ss

abbrev pub but_last : List String → List String
but_last [] = []
but_last (s ∷ []) = []
but_last (s ∷ t ∷ ss) = s ∷ but_last (t ∷ ss)

-- Only valid basic constraints are encoded.
abbrev pub signs : Certificate → Bool
signs t = t.is_ca && t.basic_constraints_valid

abbrev pub is_encodable : Certificate → Bool
is_encodable t =
    is_nul_free t.common_name && all is_nul_free t.dns_names && has_usages (signs t) t.key_usage

abbrev pub encode_certificate : Certificate → String
encode_certificate t =
    t.common_name <> "\0" <> usage_flag (signs t) <> "\0" <> terminate t.dns_names

abbrev pub make_certificate : Certificate → Certificate → String → String → Result String
make_certificate t parent public signer =
    if is_encodable t then ok (encode_certificate t) else err (new_error "not encodable")

abbrev pub read_back : String → String → String → List String → Certificate
read_back raw name flag rest = record {
  raw = raw;
  serial_number = 0;
  common_name = name;
  not_before = 0;
  not_after = 0;
  dns_names = but_last rest;
  key_usage = key_usages (flag == "1");
  ext_key_usage = [];
  is_ca = flag == "1";
  basic_constraints_valid = flag == "1";
}

abbrev pub read_fields : String → List String → Result Certificate
read_fields raw (name ∷ flag ∷ rest) = ok (read_back raw name flag rest)
read_fields raw _ = err (new_error "no certificate")

abbrev pub read_certificate : String → Result Certificate
read_certificate raw = read_fields raw (split_fields raw)

abbrev pub x509_library : Library
x509_library = record sample_library {
  create_certificate = make_certificate;
  parse_certificate = read_certificate;
}

split_fields-terminate :
    (ss : List String) → all is_nul_free ss ≡ true → split_fields (terminate ss) ≡ ss ++ "" ∷ []
unfolding split_fields
split_fields-terminate [] free = refl
split_fields-terminate (s ∷ ss) free =
    split_fields-field s (terminate ss) (ground arith)
    ∙ ap (λ fs. s ∷ fs) (split_fields-terminate ss (ground arith))

but_last-append : (ss : List String) (s : String) → but_last (ss ++ s ∷ []) ≡ ss
but_last-append [] s = refl
but_last-append (t ∷ []) s = refl
but_last-append (t ∷ u ∷ ss) s = ap (λ fs. t ∷ fs) (but_last-append (u ∷ ss) s)

has_usages-eq : (b : Bool) (us : List KeyUsage) → has_usages b us ≡ true → us ≡ key_usages b
has_usages-eq true
      (KeyUsage.digital_signature ∷ KeyUsage.key_encipherment ∷ KeyUsage.cert_sign ∷ []) p =
    refl
has_usages-eq false (KeyUsage.digital_signature ∷ KeyUsage.key_encipherment ∷ []) p = refl
has_usages-eq _ _ p = cc

usage_flag-free : (b : Bool) → is_nul_free (usage_flag b) ≡ true
unfolding is_nul_free
usage_flag-free true = refl
usage_flag-free false = refl

usage_flag-eq : (b : Bool) → (usage_flag b == "1") ≡ b
usage_flag-eq true = refl
usage_flag-eq false = refl

fields_of :
    (t : Certificate)
    → is_encodable t ≡ true
    → split_fields (encode_certificate t)
      ≡ t.common_name ∷ usage_flag (signs t) ∷ (t.dns_names ++ "" ∷ [])
fields_of t p =
    split_fields-field t.common_name _ (ground arith)
    ∙ ap (λ fs. t.common_name ∷ fs)
        (split_fields-field (usage_flag (signs t)) _ (usage_flag-free (signs t))
          ∙ ap (λ fs. usage_flag (signs t) ∷ fs)
              (split_fields-terminate t.dns_names (ground arith)))

-- What a certificate has in common with its template.
abbrev SameRights : Certificate → Certificate → String → Type 0
SameRights cert t raw =
    (cert.raw ≡ raw)
    × (cert.common_name ≡ t.common_name)
    × (cert.dns_names ≡ t.dns_names)
    × (cert.is_ca ≡ signs t)
    × (cert.key_usage ≡ t.key_usage)

read_back-SameRights :
    (t : Certificate) (raw : String)
    → is_encodable t ≡ true
    → SameRights (read_back raw t.common_name (usage_flag (signs t)) (t.dns_names ++ "" ∷ [])) t raw
read_back-SameRights t raw p = (
  refl,
  refl,
  but_last-append t.dns_names "",
  usage_flag-eq (signs t),
  ap key_usages (usage_flag-eq (signs t))
      ∙ sym (has_usages-eq (signs t) t.key_usage (ground arith)),
)

made_ok :
    (b : Bool) (made raw : String) (e : Error)
    → (if b then ok made else err e) ≡ ok raw
    → (b ≡ true) × (made ≡ raw)
made_ok true made raw e p = (refl, cc)
made_ok false made raw e p = cc

parse-create :
    (t : Certificate) (raw : String) (cert : Certificate)
    → (if is_encodable t then ok (encode_certificate t) else err (new_error "not encodable"))
      ≡ ok raw
    → read_certificate raw ≡ ok cert
    → SameRights cert t raw
parse-create t raw cert made parsed =
    let (p, same) = made_ok (is_encodable t) (encode_certificate t) raw _ made in
    let fields : split_fields raw
        ≡ t.common_name ∷ usage_flag (signs t) ∷ (t.dns_names ++ "" ∷ []) =
      ap split_fields (sym same) ∙ fields_of t p in
    let read = ap (read_fields raw) (sym fields) ∙ parsed in
    let is : cert ≡ read_back raw t.common_name (usage_flag (signs t)) (t.dns_names ++ "" ∷ []) =
      cc in
    rw is (read_back-SameRights t raw p)

pub x509_library-IsX509Lawful : IsX509Lawful x509_library
x509_library-IsX509Lawful = record {
  parse-create = λ t parent public signer raw cert. parse-create t raw cert;
}
