-- ===== src/Server2/Auth.antt =====
-- server2/auth.go: how `checkAuth` decides on the bindings that the store returns.
pub mod Votes
use smart_web.Base.{
  Bool, true, false, not, ◌&&◌, List, [], ◌∷◌, ◌++◌, Bytes, codes, equal, is_empty, if◌then◌else◌,
}

abbrev pub sw_default : Bytes
sw_default = codes "tag:mildred.fr,2015-05:SmartWeb#Default"

abbrev pub sw_allow : Bytes
sw_allow = codes "tag:mildred.fr,2015-05:SmartWeb#allow"

-- The variables of a binding that are read; one that is not bound has the value "".
pub record Binding : Type 0 where
  pub page : Bytes
  pub auth : Bytes
  pub act : Bytes

-- the variables of the loop
pub record Ballot : Type 0 where
  pub first_page : Bytes
  pub default_auth : Bytes
  pub action_auth : Bytes

abbrev pub new_ballot : Ballot
new_ballot = record { first_page = []; default_auth = []; action_auth = [] }

-- what becomes of `defaultAuth` or `actionAuth`
unfoldable pub merge : Bytes → Bytes → Bytes
merge old auth = if not (is_empty old) && not (equal old auth) then codes "deny" else auth

-- one round of the loop, past the test for the page
unfoldable pub vote : Binding → Ballot → Ballot
vote b v =
    if equal b.act sw_default
    then record v { first_page = b.page; default_auth = merge v.default_auth b.auth }
    else record v { first_page = b.page; action_auth = merge v.action_auth b.auth }

-- the loop; a binding of another page breaks it
unfoldable pub count_votes : List Binding → Ballot → Ballot
count_votes [] v = v
count_votes (b ∷ bs) v =
    let counted = count_votes bs (vote b v) in
    if not (is_empty v.first_page) && not (equal v.first_page b.page) then v else counted

-- `checkAuth` behind its query
unfoldable pub is_allowed : List Binding → Bool
is_allowed bs =
    let v = count_votes bs new_ballot in
    equal (if not (is_empty v.action_auth) then v.action_auth else v.default_auth) sw_allow
