-- ===== src/ActiveUsers/Witnesses.antt =====
-- The theorems on connected users at a set of one user.
use hexchess.Prelude.{◌≡◌, refl, true, some, List, [], ◌∷◌, length}
use hexchess.Model.Enums.{Text}
use hexchess.Cache.{is_member, first_score, contains_text, all_distinct}
use hexchess.Cache.Table.{Table, table, table-Documented}
use hexchess.ActiveUsers.{is_active_user, get_active_count, add_active_user}
use hexchess.ActiveUsers.Seen.{
  Call, retain, add, remove, expired, follow_all, call_all, get_active_count-call_all,
  is_active_user_kept, add_active_user-is_active_user,
}

abbrev a_user : Text
a_user = b'1' ∷ []

abbrev another : Text
another = b'2' ∷ []

abbrev connected : Table
connected = record { entries = (a_user, 1000000) ∷ []; distinct = refl }

abbrev calls : List Call
calls = add 1100000 another ∷ retain 1200000 a_user ∷ remove 1400000 another ∷ []

get_active_count-call_all_example :
    (l : List Text) × (all_distinct l ≡ true)
    × ((id : Text)
        → contains_text l id
          ≡ is_member (expired 1450000 (follow_all id calls (table.zscore id connected))))
    × ((get_active_count table 1450000 (call_all table calls connected)).count ≡ length l)
get_active_count-call_all_example =
    get_active_count-call_all table table-Documented calls 1450000 connected

is_active_user_kept_example : is_active_user table a_user (call_all table calls connected) ≡ true
is_active_user_kept_example =
    is_active_user_kept table table-Documented calls connected a_user 1000000 refl refl

add_active_user-is_active_user_example :
    is_active_user table a_user (add_active_user table 1300000 a_user connected).users
    ≡ is_member (expired 1300000 (some (first_score (table.zscore a_user connected) 1300000)))
add_active_user-is_active_user_example =
    add_active_user-is_active_user table table-Documented 1300000 a_user connected
