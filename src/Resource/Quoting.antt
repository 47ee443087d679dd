-- ===== src/Resource/Quoting.antt =====
-- Names and passwords in the text of a statement.
use doltdb_operator.Prelude.{
  ℕ, ◌+◌, true, false, [], ◌∷◌, ◌++◌, Bytes, codes, ◌≡◌, refl, arith, ◌==◌, not, all, keep,
  is_empty, if◌then◌else◌, has_prefix, has_prefix-append,
}
use mathlib.Core.Path.{subst}
use mathlib.Core.List.{append_assoc}
use doltdb_operator.Effect.{ok}
use doltdb_operator.Resource.Statements.{
  DatabaseOpts, clause_of, is_identifier_char, valid_identifier, sanitize_identifier,
  create_database_statement, drop_database_statement, use_database_statement, CreateUserOpts,
  create_user_statement,
}

-- What follows the name in the statement that creates a database.
abbrev options_of : DatabaseOpts → Bytes
options_of opts =
    codes "`"
    ++ (clause_of (codes " CHARACTER SET =") opts.char_set
        ++ (clause_of (codes " COLLATE =") opts.collation ++ codes ";"))

-- How often a byte occurs.
abbrev pub count : ℕ → Bytes → ℕ
count b [] = 0
count b (c ∷ s) = (if c == b then 1 else 0) + count b s

count-append : (b : ℕ) (s t : Bytes) → count b (s ++ t) ≡ count b s + count b t
count-append b [] t = omega arith
count-append b (c ∷ s) t = omega (arith, count-append b s t)

-- A byte that no identifier has does not occur in one.
count-identifier :
    (b : ℕ) (s : Bytes)
    → is_identifier_char b ≡ false
    → all is_identifier_char s ≡ true
    → count b s ≡ 0
count-identifier b [] n h = refl
count-identifier b (c ∷ s) n h = ground (arith, count-identifier b s n)

sanitized_chars :
    (name safe : Bytes) → sanitize_identifier name ≡ ok safe → all is_identifier_char safe ≡ true
unfolding sanitize_identifier valid_identifier
sanitized_chars name safe e = ground arith

keep-identifier : (s : Bytes) → all is_identifier_char s ≡ true → keep (λ c. not (c == b'`')) s ≡ s
unfolding is_identifier_char
keep-identifier [] h = refl
keep-identifier (c ∷ s) h = ground (arith, keep-identifier s)

-- A name that is an identifier is taken as it is.
pub sanitize-valid :
    (name : Bytes) → valid_identifier name ≡ true → sanitize_identifier name ≡ ok name
unfolding sanitize_identifier valid_identifier
sanitize-valid name h = ground (arith, keep-identifier name)

-- No byte of the statement but those of its own text is a backtick or a semicolon.
pub record IsQuotedOnce (statement : Bytes) : Type 0 where
  pub backticks : count b'`' statement ≡ 2
  pub semicolons : count b';' statement ≡ 1

quoted :
    (front back safe : Bytes)
    → all is_identifier_char safe ≡ true
    → count b'`' front + count b'`' back ≡ 2
    → count b';' front + count b';' back ≡ 1
    → IsQuotedOnce (front ++ (safe ++ back))
unfolding is_identifier_char
quoted front back safe h ticks ends =
    let none_of = λ (b : ℕ) (n : is_identifier_char b ≡ false). count-identifier b safe n h in
    record {
      backticks = omega (
        arith,
        count-append b'`' front (safe ++ back),
        count-append b'`' safe back,
        none_of b'`' refl,
      );
      semicolons = omega (
        arith,
        count-append b';' front (safe ++ back),
        count-append b';' safe back,
        none_of b';' refl,
      );
    }

count-four :
    (b : ℕ) (k q v e : Bytes)
    → count b (k ++ (q ++ (v ++ e))) ≡ count b k + (count b q + (count b v + count b e))
count-four b k q v e =
    omega (arith, count-append b k (q ++ (v ++ e)), count-append b q (v ++ e), count-append b v e)

none_of_four :
    (b : ℕ) (k q v e : Bytes)
    → count b k ≡ 0
    → count b q ≡ 0
    → count b v ≡ 0
    → count b e ≡ 0
    → count b (k ++ (q ++ (v ++ e))) ≡ 0
none_of_four b k q v e hk hq hv he = omega (arith, count-four b k q v e, hk, hq, hv, he)

-- A byte of neither the keyword nor the quotes nor the value is not in the clause.
count-clause :
    (b : ℕ) (keyword value : Bytes)
    → count b keyword ≡ 0
    → count b (codes " '") ≡ 0
    → count b (codes "'") ≡ 0
    → count b value ≡ 0
    → count b (clause_of keyword value) ≡ 0
count-clause b keyword [] k q q' h = refl
count-clause b keyword (c ∷ value) k q q' h =
    none_of_four b keyword (codes " '") (c ∷ value) (codes "'") k q h q'

outer_two :
    (b n m : ℕ) (k q v e : Bytes)
    → count b k ≡ n
    → count b q ≡ 0
    → count b v ≡ 0
    → count b e ≡ m
    → count b (k ++ (q ++ (v ++ e))) ≡ n + m
outer_two b n m k q v e hk hq hv he = omega (arith, count-four b k q v e, hk, hq, hv, he)

added : (x y n m : ℕ) → x ≡ n → y ≡ m → x + y ≡ n + m
added x y n m h h' = omega (arith, h, h')

-- A byte that the options do not have occurs in the rest of the statement as in its own text.
count-options :
    (b n m : ℕ) (opts : DatabaseOpts)
    → count b opts.char_set ≡ 0
    → count b opts.collation ≡ 0
    → count b (codes " CHARACTER SET =") ≡ 0
    → count b (codes " COLLATE =") ≡ 0
    → count b (codes " '") ≡ 0
    → count b (codes "'") ≡ 0
    → count b (codes "`") ≡ n
    → count b (codes ";") ≡ m
    → count b (options_of opts) ≡ n + m
count-options b n m opts s c k k' q q' hn hm =
    outer_two b n m (codes "`") (clause_of (codes " CHARACTER SET =") opts.char_set)
      (clause_of (codes " COLLATE =") opts.collation) (codes ";") hn
      (count-clause b (codes " CHARACTER SET =") opts.char_set k q q' s)
      (count-clause b (codes " COLLATE =") opts.collation k' q q' c) hm

-- A name that `sanitizeIdentifier` lets through, with its backticks taken out, has none but letters,
-- digits and underscores; so the statements that drop and use the database, and the one that creates
-- it with a character set and a collation that have no backtick and no semicolon, have the two
-- backticks around it and one semicolon at the end, and no others. The code does not check the two
-- options itself.
pub sanitized_names_stay_quoted :
    (name safe : Bytes)
    → sanitize_identifier name ≡ ok safe
    → (opts : DatabaseOpts) → (count b'`' opts.char_set ≡ 0) × (count b'`' opts.collation ≡ 0)
    → (count b';' opts.char_set ≡ 0) × (count b';' opts.collation ≡ 0)
    → (all is_identifier_char safe ≡ true)
      × IsQuotedOnce (drop_database_statement safe)
      × IsQuotedOnce (use_database_statement safe)
      × IsQuotedOnce (create_database_statement safe opts)
unfolding drop_database_statement use_database_statement create_database_statement
sanitized_names_stay_quoted name safe e opts ticks ends =
    let h = sanitized_chars name safe e in
    (
      h,
      quoted (codes "DROP DATABASE IF EXISTS `") (codes "`;") safe h refl refl,
      quoted (codes "USE `") (codes "`;") safe h refl refl,
      quoted (codes "CREATE DATABASE IF NOT EXISTS `") (options_of opts) safe h
          (added _ _ 1 1 refl
            (count-options b'`' 1 0 opts ticks.0 ticks.1 refl refl refl refl refl refl))
          (added _ _ 0 1 refl
            (count-options b';' 0 1 opts ends.0 ends.1 refl refl refl refl refl refl)),
    )

longer :
    (query clause password tail more : Bytes)
    → (query ++ (clause ++ (password ++ tail))) ++ (more ++ tail)
      ≡ query ++ (clause ++ (((password ++ tail) ++ more) ++ tail))
longer query clause password tail more = simp append_assoc

abbrev pub with_password : Bytes → CreateUserOpts
with_password password = record { identified_by_password = []; identified_by = password }

-- A password is put into the statement as it is: where a quote, a space and a semicolon follow some
-- password in a longer one, the statement of the longer one begins with the whole statement of the
-- shorter one, so what comes after it is read as statements of its own.
passwords_are_not_quoted :
    (account password more : Bytes)
    → is_empty password ≡ false
    → (short : Bytes) × (long : Bytes) × (create_user_statement account (with_password password)
        ≡ ok short)
      × (create_user_statement account (with_password ((password ++ codes "' ;") ++ more))
          ≡ ok long)
      × (has_prefix long short ≡ true)
unfolding create_user_statement
passwords_are_not_quoted account [] more h = cc
passwords_are_not_quoted account (c ∷ password) more h =
    let query = codes "CREATE USER IF NOT EXISTS " ++ (account ++ codes " ") in
    let clause = codes "IDENTIFIED BY '" in
    let short = query ++ (clause ++ ((c ∷ password) ++ codes "' ;")) in
    (
      short,
      query ++ (clause ++ ((((c ∷ password) ++ codes "' ;") ++ more) ++ codes "' ;")),
      refl,
      refl,
      subst (λ s. has_prefix s short ≡ true) (longer query clause (c ∷ password) (codes "' ;") more)
          (has_prefix-append short (more ++ codes "' ;")),
    )
