-- ===== src/Crypto/Keys.antt =====
-- pkg/crypto/keys.go: LoadPublicKey and LoadPrivateKey. The file system, PEM and x509 are parameters.
use Prim.Native.String
use go_yandex_practicum_metr.Prelude.{String, Option, none, some, ◌≡◌, ◌∙◌, arith}
use go_yandex_practicum_metr.GoError.{GoError, Result, ok, err, text, wrap}
use go_yandex_practicum_metr.Crypto.{Bytes}

-- What a parser that accepts several kinds of keys returns: an RSA key, or one of another type, by
-- its name as `%T` prints it.
pub data ParsedKey (K : Type 0) : Type 0 where
  rsa : K → ParsedKey K
  other : String → ParsedKey K

-- os.ReadFile, pem.Decode (the Bytes of the first block), the four parsers of x509, and `%q`
pub record KeyLib (Pub Priv : Type 0) : Type 0 where
  pub read_file : String → Result Bytes
  pub pem_decode : Bytes → Option Bytes
  pub parse_pkix_public_key : Bytes → Result (ParsedKey Pub)
  pub parse_pkcs1_public_key : Bytes → Result Pub
  pub parse_pkcs1_private_key : Bytes → Result Priv
  pub parse_pkcs8_private_key : Bytes → Result (ParsedKey Priv)
  pub quoted : String → String

abbrev joined : String → String → String → String
joined a b c = String.◌++◌ a (String.◌++◌ b c)

module _ {Pub Priv : Type 0} (lib : KeyLib Pub Priv) where
  -- the check of the type of a parsed key
  abbrev rsa_or_fail : {K : Type 0} → String → ParsedKey K → Result K
  rsa_or_fail message (rsa k) = ok k
  rsa_or_fail message (other type) = err (text (String.◌++◌ message type))

  abbrev unsupported : {K : Type 0} → String → String → Result K
  unsupported message path = err (text (joined message (lib.quoted path) ": unsupported format"))

  -- os.ReadFile and pem.Decode, in front of the parsers of a block
  abbrev with_block : {K : Type 0} → String → String → (Bytes → Result K) → Result K
  with_block message path parse = elim (lib.read_file path) [
    | err e ↦ err (wrap (String.◌++◌ message (lib.quoted path)) e)
    | ok contents ↦ elim (lib.pem_decode contents) [
      | none ↦ err (text (String.◌++◌ "no PEM block in " (lib.quoted path)))
      | some block ↦ parse block
    ]
  ]

  abbrev parse_public : String → Bytes → Result Pub
  parse_public path block = elim (lib.parse_pkix_public_key block) [
    | ok key ↦ rsa_or_fail "not an RSA public key: " key
    | err e ↦ elim (lib.parse_pkcs1_public_key block) [
      | ok key ↦ ok key
      | err e ↦ unsupported "parse public key " path
    ]
  ]

  abbrev parse_private : String → Bytes → Result Priv
  parse_private path block = elim (lib.parse_pkcs1_private_key block) [
    | ok key ↦ ok key
    | err e ↦ elim (lib.parse_pkcs8_private_key block) [
      | ok key ↦ rsa_or_fail "not an RSA private key: " key
      | err e ↦ unsupported "parse private key " path
    ]
  ]

  -- LoadPublicKey
  unfoldable pub load_public_key : String → Result Pub
  load_public_key path = with_block "read public key " path (parse_public path)

  -- LoadPrivateKey
  unfoldable pub load_private_key : String → Result Priv
  load_private_key path = with_block "read private key " path (parse_private path)

-- The two formats of a public and of a private key.
pub data Format : Type 0 where
  pkcs1 : Format
  -- PKIX for a public key, PKCS#8 for a private one
  wrapped : Format

-- x509 and pem in the other direction, and what their documentation says: a parser reads what is
-- written in its format, the parser that is tried first reports an error on the other format, and a
-- PEM text holds its block.
pub record KeyWriter {Pub Priv : Type 0} (lib : KeyLib Pub Priv) : Type 0 where
  pub marshal_public : Format → Pub → Bytes
  pub marshal_private : Format → Priv → Bytes
  pub pem_encode : Bytes → Bytes
  pub pem_decode-pem_encode : (b : Bytes) → lib.pem_decode (pem_encode b) ≡ some b
  pub pkix_read : (k : Pub) → lib.parse_pkix_public_key (marshal_public wrapped k) ≡ ok (rsa k)
  pub pkix_refuses :
      (k : Pub) → (e : GoError) × (lib.parse_pkix_public_key (marshal_public pkcs1 k) ≡ err e)
  pub pkcs1_public_read : (k : Pub) → lib.parse_pkcs1_public_key (marshal_public pkcs1 k) ≡ ok k
  pub pkcs1_private_read : (k : Priv) → lib.parse_pkcs1_private_key (marshal_private pkcs1 k) ≡ ok k
  pub pkcs1_refuses :
      (k : Priv) → (e : GoError) × (lib.parse_pkcs1_private_key (marshal_private wrapped k) ≡ err e)
  pub pkcs8_read : (k : Priv) → lib.parse_pkcs8_private_key (marshal_private wrapped k) ≡ ok (rsa k)

module _ {Pub Priv : Type 0} (lib : KeyLib Pub Priv) (writer : KeyWriter lib) where
  parse_public-marshal :
      (path : String) (f : Format) (k : Pub)
      → parse_public lib path (writer.marshal_public f k) ≡ ok k
  parse_public-marshal path wrapped k = ground (arith, writer.pkix_read k)
  parse_public-marshal path pkcs1 k =
      let (e, refused) = writer.pkix_refuses k in ground (arith, writer.pkcs1_public_read k)

  parse_private-marshal :
      (path : String) (f : Format) (k : Priv)
      → parse_private lib path (writer.marshal_private f k) ≡ ok k
  parse_private-marshal path pkcs1 k = ground (arith, writer.pkcs1_private_read k)
  parse_private-marshal path wrapped k =
      let (e, refused) = writer.pkcs1_refuses k in ground (arith, writer.pkcs8_read k)

  with_block-pem :
      {K : Type 0} (message path : String) (block : Bytes) (parse : Bytes → Result K)
      → lib.read_file path ≡ ok (writer.pem_encode block)
      → with_block lib message path parse ≡ parse block
  with_block-pem message path block parse e = ground (arith, writer.pem_decode-pem_encode block)

  -- A pair of keys that stands in two PEM files, each in either of its two formats, is loaded as that
  -- pair: the public key by LoadPublicKey and the private key by LoadPrivateKey.
  pub load_keys-marshal :
      (public_path private_path : String) (f g : Format) (public : Pub) (private : Priv)
      → lib.read_file public_path ≡ ok (writer.pem_encode (writer.marshal_public f public))
      → lib.read_file private_path ≡ ok (writer.pem_encode (writer.marshal_private g private))
      → (load_public_key lib public_path ≡ ok public)
        × (load_private_key lib private_path ≡ ok private)
  unfolding load_public_key load_private_key
  load_keys-marshal public_path private_path f g public private p q = (
    with_block-pem "read public key " public_path _ (parse_public lib public_path) p
        ∙ parse_public-marshal public_path f public,
    with_block-pem "read private key " private_path _ (parse_private lib private_path) q
        ∙ parse_private-marshal private_path g private,
  )
