-- ===== src/Magnet/Parsed.antt =====
-- Which links `parse_magnet` accepts, and what it returns for them.
use tuntu.Prelude.{
  ◌≡◌, ◌↔◌, refl, sym, ap, ◌∙◌, subst, false, Option, none, some, List, [], ◌∷◌, ◌++◌, Text, All,
  codes, nat_eq, list_eq, list_beq_iff, arith, is_empty, ◌==◌, Bool-cases, inl, inr,
}
use tuntu.Errors.{ok, ◌>>=◌, >>=-eq-ok}
use tuntu.Magnet.{
  Urls, Magnet, normalize_btih, split_pairs, agree, one_btih, parse_split, parse_magnet, raw_btih,
  partition_colon, plain_uri, canonical_uri,
}
use tuntu.Magnet.Hashes.{Splits, split_pairs-Splits, split_pairs_of_Splits}
use tuntu.Magnet.Normal.{IsBtih, normalize_btih_of_IsBtih}

agree_iff :
    (btih b : Text) (raws : List Text)
    → (agree btih raws ≡ ok b) ↔ ((btih ≡ b) × All (λ raw. normalize_btih raw ≡ ok btih) raws)
unfolding agree
agree_iff btih b [] = (λ h. (ground arith, tt), λ h. ground arith)
agree_iff btih b (raw ∷ rest) = (
  λ h.
      let (other, first, more) = >>=-eq-ok (normalize_btih raw) _ h in
      let (agreed, second, last) = >>=-eq-ok (agree btih rest) _ more in
      let same : other ≡ btih = ground (arith, last, list_beq_iff other btih) in
      let (start, others) = (agree_iff btih agreed rest).0 second in
      (start ∙ ground (arith, last), (first ∙ ap ok same, others)),
  λ h. rw (h.1.0, (agree_iff btih b rest).1 (h.0, h.1.1)) (ground (arith, list_beq_iff btih btih)),
)

one_btih_iff :
    (b : Text) (raws : List Text)
    → (one_btih raws ≡ ok b)
      ↔ ((is_empty raws ≡ false) × All (λ raw. normalize_btih raw ≡ ok b) raws)
unfolding one_btih
one_btih_iff b [] = (λ h. absurd (cc), λ h. absurd (cc))
one_btih_iff b (raw ∷ rest) = (
  λ h.
      let (btih, first, more) = >>=-eq-ok (normalize_btih raw) _ h in
      let (start, others) = (agree_iff btih b rest).0 more in
      (
        refl,
        (
          first ∙ ap ok start,
          subst (λ (t : Text). All (λ raw'. normalize_btih raw' ≡ ok t) rest) start others,
        ),
      ),
  λ h. rw h.1.0 ((agree_iff b b rest).1 (refl, h.1.1)),
)

module _ (u : Urls) where
  -- The same with the query split.
  parse_magnet_of_split :
      (uri scheme query : Text) (m : Magnet)
      → u.urlsplit uri ≡ some (scheme, query)
      → u.casefold scheme ≡ codes "magnet"
      → let (hashes, parameters) = split_pairs u (u.parse_qsl query) in
        (parse_magnet u uri ≡ ok m) ↔ (
          (is_empty hashes ≡ false)
          × All (λ raw. normalize_btih raw ≡ ok m.btih) hashes
          × (m.parameters ≡ parameters))
  unfolding parse_magnet parse_split
  parse_magnet_of_split uri scheme query m split magnet =
      let (hashes, parameters) = split_pairs u (u.parse_qsl query) in
      let body : parse_magnet u uri
          ≡ (do btih ← one_btih hashes; ok (record { btih = btih; parameters = parameters })) =
        rw (split, magnet) refl in
      (
        λ h.
            let (btih, first, last) = >>=-eq-ok (one_btih hashes) _ (sym body ∙ h) in
            let r = (one_btih_iff m.btih hashes).0 (first ∙ ground (arith, last)) in
            (r.0, r.1, ground (arith, last)),
        λ h. body ∙ rw ((one_btih_iff m.btih hashes).1 (h.0, h.1)) (ground (arith, h.2)),
      )

  -- A link with the scheme magnet, whose query splits into at least one v1 hash, all with the BTIH
  -- as their normal form, and the parameters.
  pub record IsLink (uri : Text) (m : Magnet) : Type 0 where
    pub scheme : Text
    pub query : Text
    pub hashes : List Text
    pub address : u.urlsplit uri ≡ some (scheme, query)
    pub magnet : u.casefold scheme ≡ codes "magnet"
    pub parts : Splits u (u.parse_qsl query) hashes m.parameters
    pub some_hash : is_empty hashes ≡ false
    pub one : All (λ raw. normalize_btih raw ≡ ok m.btih) hashes

  scheme_of :
      (uri : Text) (o : Option (Text × Text)) {m : Magnet}
      → u.urlsplit uri ≡ o
      → parse_split u o ≡ ok m
      → (scheme : Text) × (query : Text) × (u.urlsplit uri ≡ some (scheme, query))
        × (u.casefold scheme ≡ codes "magnet")
  unfolding parse_split
  scheme_of uri none e h = absurd (cc)
  scheme_of uri (some (scheme, query)) e h =
      elim (Bool-cases (u.casefold scheme == codes "magnet")) [
        | inl magnet ↦
            (scheme, query, e, (list_beq_iff (u.casefold scheme) (codes "magnet")).0 magnet)
        | inr other ↦ absurd (ground (arith, h, other))
      ]

  -- `parse_magnet` accepts a link, any text, and returns this magnet, exactly if `urlsplit` finds the
  -- scheme magnet in it and a query that has at least one pair `xt=urn:btih:…`; all of these normalize
  -- to the BTIH of the magnet, and the other pairs of the query are its parameters, in order.
  pub parse_magnet_iff : (uri : Text) (m : Magnet) → (parse_magnet u uri ≡ ok m) ↔ IsLink uri m
  unfolding parse_magnet
  parse_magnet_iff uri m = (
    λ h.
        let (scheme, query, address, magnet) = scheme_of uri (u.urlsplit uri) refl h in
        let (some_hash, one, rest) =
          (parse_magnet_of_split uri scheme query m address magnet).0 h in
        let pairs = u.parse_qsl query in
        record {
          scheme = scheme;
          query = query;
          hashes = (split_pairs u pairs).0;
          address = address;
          magnet = magnet;
          parts =
              subst (Splits u pairs (split_pairs u pairs).0) (sym rest)
                (split_pairs-Splits u pairs);
          some_hash = some_hash;
          one = one;
        },
    λ k.
        (parse_magnet_of_split uri k.scheme k.query m k.address k.magnet).1
          (rw (split_pairs_of_Splits u k.parts) (k.some_hash, k.one, refl)),
  )

-- What `urllib.parse` and `casefold` do with a link of the canonical form.
pub record PlainLinks (u : Urls) : Type 0 where
  pub scheme :
      (b : Text)
      → IsBtih b
      → u.urlsplit (plain_uri b) ≡ some (codes "magnet", codes "xt=urn:btih:" ++ b)
  pub query :
      (b : Text)
      → IsBtih b
      → u.parse_qsl (codes "xt=urn:btih:" ++ b) ≡ (codes "xt", codes "urn:btih:" ++ b) ∷ []
  pub fold_magnet : u.casefold (codes "magnet") ≡ codes "magnet"
  pub fold_xt : u.casefold (codes "xt") ≡ codes "xt"
  pub fold_urn : u.casefold (codes "urn") ≡ codes "urn"
  pub fold_btih : u.casefold (codes "btih") ≡ codes "btih"

raw_btih_plain :
    (u : Urls) (b : Text) → PlainLinks u → raw_btih u (codes "xt", codes "urn:btih:" ++ b) ≡ some b
unfolding raw_btih partition_colon
raw_btih_plain u b p = rw p.fold_xt (rw p.fold_urn (rw p.fold_btih refl))

split_plain :
    (u : Urls) (b : Text)
    → PlainLinks u
    → split_pairs u ((codes "xt", codes "urn:btih:" ++ b) ∷ []) ≡ (b ∷ [], [])
unfolding split_pairs
split_plain u b p = rw (raw_btih_plain u b p, split_pairs) refl

-- The link that is built for a normal BTIH parses to it, with no other parameter.
pub parse_magnet-canonical_uri :
    (u : Urls) (b : Text)
    → PlainLinks u
    → IsBtih b
    → parse_magnet u (canonical_uri u (record { btih = b; parameters = [] }))
      ≡ ok (record { btih = b; parameters = [] })
unfolding canonical_uri one_btih agree
parse_magnet-canonical_uri u b p v =
    (parse_magnet_of_split u (plain_uri b) (codes "magnet") (codes "xt=urn:btih:" ++ b)
        (record { btih = b; parameters = [] }) (p.scheme b v) p.fold_magnet).1
      (rw (p.query b v, split_plain u b p) (refl, (normalize_btih_of_IsBtih b v, tt), refl))
