-- ===== src/Resource/Statements.antt =====
-- pkg/dolt/sql/database.go, user.go and grant.go: the text of the statements.
use doltdb_operator.Prelude.{
  ℕ, Bool, List, [], ◌∷◌, ◌++◌, Bytes, codes, leb, ◌==◌, ◌&&◌, ◌||◌, not, all, keep, is_empty,
  str_eq, if◌then◌else◌,
}
use doltdb_operator.Effect.{message, Result, ok, err}

-- `[a-zA-Z0-9_]`.
unfoldable pub is_identifier_char : ℕ → Bool
is_identifier_char c =
    (leb b'a' c && leb c b'z')
    || ((leb b'A' c && leb c b'Z') || ((leb b'0' c && leb c b'9') || c == b'_'))

-- `validIdentifier`, which asks for one character at least.
unfoldable pub valid_identifier : Bytes → Bool
unfolding is_identifier_char
valid_identifier s = not (is_empty s) && all is_identifier_char s

unfoldable pub sanitize_identifier : Bytes → Result Bytes
unfolding valid_identifier
sanitize_identifier name =
    let s = keep (λ c. not (c == b'`')) name in
    if is_empty s || not (valid_identifier s) then err (message "invalid identifier: %q") else ok s

pub record DatabaseOpts : Type 0 where
  pub char_set : Bytes
  pub collation : Bytes

-- A clause that stands in the statement unless its value is empty.
abbrev pub clause_of : Bytes → Bytes → Bytes
clause_of keyword value =
    if is_empty value then [] else keyword ++ (codes " '" ++ (value ++ codes "'"))

-- `CreateDatabase`, after the name is checked.
unfoldable pub create_database_statement : Bytes → DatabaseOpts → Bytes
create_database_statement safe opts =
    codes "CREATE DATABASE IF NOT EXISTS `"
    ++ (safe
        ++ (codes "`"
            ++ (clause_of (codes " CHARACTER SET =") opts.char_set
                ++ (clause_of (codes " COLLATE =") opts.collation ++ codes ";"))))

-- `DropDatabase`.
unfoldable pub drop_database_statement : Bytes → Bytes
drop_database_statement safe = codes "DROP DATABASE IF EXISTS `" ++ (safe ++ codes "`;")

-- `UseDatabase`.
unfoldable pub use_database_statement : Bytes → Bytes
use_database_statement safe = codes "USE `" ++ (safe ++ codes "`;")

-- The account of `AccountName`, with `HostnameOrDefault`.
unfoldable pub account_name : Bytes → Bytes → Bytes
account_name username host =
    codes "'"
    ++ (username ++ (codes "'@'" ++ ((if is_empty host then codes "%" else host) ++ codes "'")))

pub record CreateUserOpts : Type 0 where
  pub identified_by_password : Bytes
  pub identified_by : Bytes

-- `CreateUser`.
unfoldable pub create_user_statement : Bytes → CreateUserOpts → Result Bytes
create_user_statement account opts =
    let query = codes "CREATE USER IF NOT EXISTS " ++ (account ++ codes " ") in
    if not (is_empty opts.identified_by_password)
    then ok (
        query ++ (codes "IDENTIFIED BY PASSWORD '" ++ (opts.identified_by_password ++ codes "' ;")))
    else if not (is_empty opts.identified_by)
    then ok (query ++ (codes "IDENTIFIED BY '" ++ (opts.identified_by ++ codes "' ;")))
    else err (message "invalid user identifier")

-- `DropUser`.
unfoldable pub drop_user_statement : Bytes → Bytes
drop_user_statement account = codes "DROP USER IF EXISTS " ++ (account ++ codes ";")

-- `AlterUser`.
unfoldable pub alter_user_statement : Bytes → CreateUserOpts → Bytes
alter_user_statement account opts =
    codes "ALTER USER "
    ++ (account
        ++ (codes " "
            ++ (if not (is_empty opts.identified_by_password)
                then codes "IDENTIFIED BY PASSWORD '"
                  ++ (opts.identified_by_password ++ codes "' ;")
                else codes "IDENTIFIED BY '" ++ (opts.identified_by ++ codes "' ;"))))

-- `escapeWildcard`.
unfoldable pub escape_wildcard : Bytes → Bytes
escape_wildcard s = if str_eq s (codes "*") then s else codes "`" ++ (s ++ codes "`")

-- `strings.Join` with a comma.
unfoldable pub join_privileges : List Bytes → Bytes
join_privileges [] = []
join_privileges (p ∷ []) = p
join_privileges (p ∷ q ∷ rest) = p ++ (codes "," ++ join_privileges (q ∷ rest))

-- The arguments of `Grant` and `Revoke`.
pub record Privilege : Type 0 where
  pub privileges : List Bytes
  pub database : Bytes
  pub table : Bytes
  pub account : Bytes
  pub grant_option : Bool

-- `Grant`.
unfoldable pub grant_statement : Privilege → Bytes
unfolding join_privileges escape_wildcard
grant_statement p =
    codes "GRANT "
    ++ (join_privileges p.privileges
        ++ (codes " ON "
            ++ (escape_wildcard p.database
                ++ (codes "."
                    ++ (escape_wildcard p.table
                        ++ (codes " TO "
                            ++ (p.account
                                ++ (codes " "
                                    ++ (if p.grant_option
                                        then codes "WITH GRANT OPTION ;"
                                        else codes ";")))))))))

-- `Revoke`.
unfoldable pub revoke_statement : Privilege → Bytes
unfolding join_privileges escape_wildcard
revoke_statement p =
    let privileges =
      if p.grant_option then p.privileges ++ codes "GRANT OPTION" ∷ [] else p.privileges in
    codes "REVOKE "
    ++ (join_privileges privileges
        ++ (codes " ON "
            ++ (escape_wildcard p.database
                ++ (codes "." ++ (escape_wildcard p.table ++ (codes " FROM " ++ p.account))))))
