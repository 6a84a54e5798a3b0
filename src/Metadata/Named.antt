-- ===== src/Metadata/Named.antt =====
-- Which documents make the fetcher panic: `storeGovernanceDetails` of metadata/fetcher.go.
use nectar.Prelude.{◌≡◌, ◌≢◌, refl, Option, none, some, Text, text, text_eq, if-cases}
use nectar.Metadata.Json.{
  Items, Fields, object, nil, cons, field, as_string, as_array, as_object, string_field,
}
use nectar.Metadata.Rows.{Row, Outcome, ok, failed, panicked, ◌>>=◌, asserted}
use nectar.Metadata.Details.{
  store_author, store_authors, store_reference, store_references, store_typed, if_present,
  store_governance_details,
}

-- The field is a string, where the object is there.
unfoldable pub HasString : Text → Option Fields → Type 0
HasString key none = Unit
HasString key (some m) = (s : Text) × (as_string (field key m) ≡ some s)

unfoldable pub AllNamed : Items → Type 0
AllNamed nil = Unit
AllNamed (cons j rest) = HasString (text "name") (as_object (some j)) × AllNamed rest

unfoldable pub AllLabelled : Items → Type 0
AllLabelled nil = Unit
AllLabelled (cons j rest) =
    HasString (text "label") (as_object (some j))
    × HasString (text "uri") (as_object (some j))
    × AllLabelled rest

abbrev pub IfPresent : (Items → Type 0) → Option Items → Type 0
IfPresent P none = Unit
IfPresent P (some xs) = P xs

-- Every object among the authors has a name, and every one among the references a label and a URI.
pub record WellTyped (meta : Fields) : Type 0 where
  pub authors : IfPresent AllNamed (as_array (field (text "authors") meta))
  pub references : IfPresent AllLabelled (as_array (field (text "references") meta))

>>=-safe :
    {A B : Type 0} (m : Outcome A) (f : A → Outcome B)
    → m ≢ panicked
    → ((a : A) → f a ≢ panicked)
    → (m >>= f) ≢ panicked
>>=-safe (ok a) f h g = g a
>>=-safe (failed e) f h g = λ p. cc
>>=-safe panicked f h g = λ p. h refl

asserted-safe : {A : Type 0} (o : Option A) → (a : A) × (o ≡ some a) → asserted o ≢ panicked
asserted-safe none h = λ p. absurd (cc)
asserted-safe (some a) h = λ p. cc

module _ {Db : Type 0} (create : Row → Db → Outcome Db)
    (author_hash : Text → Text → Option Text → Text) (vote_data_hash : Text)
    (creates : (row : Row) (db : Db) → create row db ≢ panicked) where
  store_author-safe :
      (m : Option Fields) (db : Db)
      → HasString (text "name") m
      → store_author create author_hash vote_data_hash m db ≢ panicked
  unfolding store_author HasString
  store_author-safe none db h = λ p. cc
  store_author-safe (some m) db h = >>=-safe _ _ (asserted-safe _ h) (λ name. creates _ db)

  store_authors-safe :
      (xs : Items) (db : Db)
      → AllNamed xs
      → store_authors create author_hash vote_data_hash xs db ≢ panicked
  unfolding store_authors AllNamed
  store_authors-safe nil db h = λ p. cc
  store_authors-safe (cons j rest) db h =
      >>=-safe _ _ (store_author-safe (as_object (some j)) db h.0)
        (λ d. store_authors-safe rest d h.1)

  store_reference-safe :
      (m : Option Fields) (db : Db)
      → HasString (text "label") m
      → HasString (text "uri") m
      → store_reference create author_hash vote_data_hash m db ≢ panicked
  unfolding store_reference HasString
  store_reference-safe none db l u = λ p. cc
  store_reference-safe (some m) db l u =
      >>=-safe _ _ (asserted-safe _ l)
        (λ label. >>=-safe _ _ (asserted-safe _ u) (λ uri. creates _ db))

  store_references-safe :
      (xs : Items) (db : Db)
      → AllLabelled xs
      → store_references create author_hash vote_data_hash xs db ≢ panicked
  unfolding store_references AllLabelled
  store_references-safe nil db h = λ p. cc
  store_references-safe (cons j rest) db h =
      let (l, u, t) = h in
      >>=-safe _ _ (store_reference-safe (as_object (some j)) db l u)
        (λ d. store_references-safe rest d t)

  if_present-safe :
      (P : Items → Type 0) (xs : Option Items) (store_all : Items → Db → Outcome Db)
      → ((ys : Items) (db : Db) → P ys → store_all ys db ≢ panicked)
      → IfPresent P xs
      → (db : Db) → if_present create author_hash vote_data_hash xs store_all db ≢ panicked
  if_present-safe P none store_all h p db = λ q. cc
  if_present-safe P (some ys) store_all h p db = h ys db p

  store_typed-safe :
      (meta_type anchor_hash : Text) (meta : Fields) (db : Db)
      → store_typed create author_hash vote_data_hash meta_type anchor_hash meta db ≢ panicked
  unfolding store_typed
  store_typed-safe meta_type anchor_hash meta db =
      if-cases (λ m. m ≢ panicked) (text_eq meta_type (text "GovernanceAction")) _ _
        (λ _. creates _ db)
        (λ _.
          if-cases (λ m. m ≢ panicked) (text_eq meta_type (text "DRepMetadata")) _ _
            (λ _. creates _ db) (λ _ p. cc))

  -- If the database never panics, the details of a document are stored without a panic where each
  -- object among its authors has a name and each one among its references has a label and a URI,
  -- all of them strings.
  pub store_governance_details-safe :
      (anchor_hash : Text) (meta : Fields) (db : Db)
      → WellTyped meta
      → store_governance_details create author_hash vote_data_hash anchor_hash meta db ≢ panicked
  unfolding store_governance_details
  store_governance_details-safe anchor_hash meta db h =
      >>=-safe _ _ (store_typed-safe (string_field (text "@type") meta) anchor_hash meta db)
        (λ typed.
          >>=-safe _ _ (if_present-safe AllNamed _ _ store_authors-safe h.authors typed)
            (λ named. if_present-safe AllLabelled _ _ store_references-safe h.references named))

  -- An author that is an object without a name that is a string makes the program panic.
  store_authors-panics :
      (m : Fields) (rest : Items) (db : Db)
      → as_string (field (text "name") m) ≡ none
      → store_authors create author_hash vote_data_hash (cons (object m) rest) db ≡ panicked
  unfolding store_authors store_author
  store_authors-panics m rest db e = rw e refl
