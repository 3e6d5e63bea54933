-- ===== src/OrganizationDirectory/Validation.antt =====
-- apps/api/src/modules/organization-directory/validation.ts: the check of a snapshot, and of a revision against
-- the one before it. Each `assert` throws the same error, so a run of them is one conjunction. The key of an
-- identity, `JSON.stringify([issuer, subject])`, stands for the pair. Parameters: `parse` is safeParse of the
-- schema of contract.ts, `is_guid` the test of zod's guid, `content_version` the digest of a snapshot, and
-- `date_parse` Date.parse.
pub mod Facts
use sq_hub.Common.{
  ℕ, suc, ◌+◌, ◌*◌, ◌%◌, String, Option, none, some, List, [], ◌∷◌, ◌++◌, map, Bool, true, false,
  not, ◌&&◌, ◌||◌, all, any, length, ltb, leb, ◌==◌, str_eq, if◌then◌else◌, is_some, Result, ok,
  err,
}
use sq_hub.Common.Identity.{Identity, same_identity}
use sq_hub.Common.Text.{codes, is_digit, digit_value}
use sq_hub.Common.Order.{codes_lt, text_lt, text_le}
use sq_hub.OrganizationDirectory.{OrgUnit, Position, Person, Source, Counts, Snapshot}
use sq_hub.OrganizationDirectory.Tree.{has, Verdict, accepted, rejected, unfinished, validate_tree}
use Prim.Native.Char.{code}

pub data DirectorySyncError : Type 0 where
  contract_validation source_regression source_auth source_request source_unavailable storage :
      DirectorySyncError

leap : ℕ → Bool
leap y = (y % 4 == 0) && (not (y % 100 == 0) || (y % 400 == 0))

days_in_month : ℕ → ℕ → ℕ
unfolding leap
days_in_month y m =
    if m == 2
    then (if leap y then 29 else 28)
    else if (m == 4) || ((m == 6) || ((m == 9) || (m == 11)))
    then 30
    else 31

-- the calendar's part of the round trip through Date
valid_day : ℕ → ℕ → ℕ → Bool
unfolding days_in_month
valid_day y m d = (leb 1 m && leb m 12) && (leb 1 d && leb d (days_in_month y m))

number : List ℕ → ℕ → ℕ
number [] n = n
number (c ∷ cs) n = number cs (n * 10 + digit_value c)

-- `businessDateSchema`
business_codes : List ℕ → Bool
unfolding valid_day number
business_codes (a ∷ b ∷ c ∷ d ∷ h ∷ m ∷ n ∷ i ∷ s ∷ t ∷ []) =
    (all is_digit (a ∷ b ∷ c ∷ d ∷ m ∷ n ∷ s ∷ t ∷ []) && ((h == b'-') && (i == b'-')))
    && valid_day (number (a ∷ b ∷ c ∷ d ∷ []) 0) (number (m ∷ n ∷ []) 0) (number (s ∷ t ∷ []) 0)
business_codes _ = false

unfoldable pub business_date : String → Bool
unfolding business_codes
business_date value = business_codes (codes value)

after_colon : String → Option String
after_colon String.[] = none
after_colon (String.◌∷◌ c s) = let rest = after_colon s in if code c == b':' then some s else rest

upto_colon : String → String
upto_colon String.[] = String.[]
upto_colon (String.◌∷◌ c s) =
    let rest = upto_colon s in if code c == b':' then String.[] else String.◌∷◌ c rest

infixl 5 ◌>>=◌
abbrev ◌>>=◌ : {A B : Type 0} → Option A → (A → Option B) → Option B
none >>= f = none
some a >>= f = f a

-- `id.split(":")[2]`
unfoldable pub third_part : String → Option String
unfolding after_colon upto_colon
third_part id = do rest ← after_colon id; last ← after_colon rest; some (upto_colon last)

-- `new Set(ids).size`
abbrev pub set_size : List String → ℕ
set_size [] = 0
set_size (id ∷ ids) = let rest = set_size ids in if has id ids then rest else suc rest

abbrev pub accepts : Verdict → Bool
accepts accepted = true
accepts rejected = false
accepts unfinished = false

-- `value === null || test(value)`
abbrev pub null_or : {A : Type 0} → (A → Bool) → Option A → Bool
null_or test none = true
null_or test (some a) = test a

-- the dates of a unit or a position
unfoldable pub effective_ok : String → String → Option String → Bool
unfolding business_date
effective_ok as_of from to =
    (business_date from && text_le from as_of)
    && null_or (λ t. business_date t && text_le from t) to

abbrev pub has_identity : Identity → List Identity → Bool
has_identity i is = any (same_identity i) is

-- the innermost loop: the identities of a person join those seen
unfoldable pub add_refs : List Identity → List Identity → Option (List Identity)
add_refs seen [] = some seen
add_refs seen (i ∷ is) =
    let rest = add_refs (i ∷ seen) is in if has_identity i seen then none else rest

abbrev pub started_before : Option String → Option String → Bool
started_before (some s) (some e) = str_eq s "" || (str_eq e "" || text_le s e)
started_before _ _ = true

unfoldable pub person_ok : List String → List String → Person → Bool
unfolding business_date
person_ok units positions p =
    (null_or business_date p.started_on && null_or business_date p.ended_on)
    && (started_before p.started_on p.ended_on
        && (null_or (λ u. has u units) p.current_primary_unit_id
            && ((set_size p.structural_position_ids == length p.structural_position_ids)
                && (all (λ id. has id positions) p.structural_position_ids
                    && null_or (λ id. has id p.structural_position_ids)
                        p.primary_structural_position_id))))

unfoldable pub people_ok : List String → List String → List Identity → List Person → Bool
unfolding person_ok add_refs
people_ok units positions seen [] = true
people_ok units positions seen (p ∷ ps) =
    person_ok units positions p && elim (add_refs seen p.identity_refs) [
      | none ↦ false
      | some seen' ↦ people_ok units positions seen' ps
    ]

abbrev pub unit_ids : Snapshot → List String
unit_ids s = map (λ u. u.id) s.units

abbrev pub position_ids : Snapshot → List String
position_ids s = map (λ p. p.id) s.positions

abbrev pub person_ids : Snapshot → List String
person_ids s = map (λ p. p.id) s.people

unfoldable pub dates_ok : String → Snapshot → Bool
unfolding business_date
dates_ok expected_as_of s =
    (str_eq s.as_of expected_as_of && business_date s.as_of)
    && (business_date s.source.effective_on && text_le s.source.effective_on s.as_of)

unfoldable pub rows_ok : Snapshot → Bool
unfolding effective_ok
rows_ok s =
    all (λ u. effective_ok s.as_of u.effective_from u.effective_to) s.units
    && all (λ p. effective_ok s.as_of p.effective_from p.effective_to) s.positions

unfoldable pub trees_ok : Snapshot → Bool
unfolding validate_tree
trees_ok s =
    accepts (validate_tree (λ u. u.id) (λ u. u.parent_unit_id) s.units)
    && accepts (validate_tree (λ p. p.id) (λ p. p.parent_position_id) s.positions)

module _ (is_guid : String → Bool) where
  abbrev pub guid_part : String → Bool
  guid_part id = elim (third_part id) [ none ↦ false | some part ↦ is_guid part ]

  -- one turn of the loop over the kinds of rows, on the ids of the rows
  unfoldable pub kind_ok : ℕ → List String → Bool
  unfolding third_part
  kind_ok count ids = (length ids == count) && ((set_size ids == length ids) && all guid_part ids)

  unfoldable pub kinds_ok : Snapshot → Bool
  unfolding kind_ok
  kinds_ok s =
      kind_ok s.counts.units (unit_ids s)
      && (kind_ok s.counts.positions (position_ids s) && kind_ok s.counts.people (person_ids s))

  -- the checks in the order of the source
  unfoldable pub snapshot_ok : (Snapshot → String) → String → Snapshot → Bool
  unfolding dates_ok kinds_ok rows_ok trees_ok people_ok
  snapshot_ok content_version expected_as_of s =
      dates_ok expected_as_of s
      && (kinds_ok s
          && (rows_ok s
              && (trees_ok s
                  && (all (λ p. has p.unit_id (unit_ids s)) s.positions
                      && (people_ok (unit_ids s) (position_ids s) [] s.people
                          && str_eq (content_version s) s.version)))))

  unfoldable pub validate_snapshot :
      {Value : Type 0}
      → (Value → Option Snapshot)
      → (Snapshot → String)
      → Value
      → String
      → Result DirectorySyncError Snapshot
  unfolding snapshot_ok
  validate_snapshot parse content_version value expected_as_of = elim (parse value) [
    | none ↦ err contract_validation
    | some s ↦
        if snapshot_ok content_version expected_as_of s then ok s else err contract_validation
  ]

-- The loop over the two arrays of `assertNoRegression`: whether it ends without throwing.
unfoldable pub not_older : List (List ℕ) → List (List ℕ) → Bool
not_older [] bs = true
not_older (a ∷ as') [] = true
not_older (a ∷ as') (b ∷ bs) =
    let rest = not_older as' bs in
    if codes_lt b a then true else if codes_lt a b then false else rest

-- An array that `assertNoRegression` compares: a text as its code points, a number as a list of itself alone.
unfoldable pub revision : (String → ℕ) → Source → List (List ℕ)
revision date_parse s =
    codes s.effective_on
    ∷ (date_parse s.published_at ∷ [])
    ∷ (date_parse s.created_at ∷ [])
    ∷ codes s.snapshot_id
    ∷ []

unfoldable pub assert_no_regression :
    (String → ℕ) → Snapshot → Snapshot → Result DirectorySyncError (Unit {0})
unfolding not_older revision
assert_no_regression date_parse next previous =
    if text_lt next.as_of previous.as_of
    then err source_regression
    else if not_older (revision date_parse next.source) (revision date_parse previous.source)
    then ok tt
    else err source_regression
