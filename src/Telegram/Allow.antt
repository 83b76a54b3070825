-- ===== src/Telegram/Allow.antt =====
-- internal/telegram/allow.go, and the update types of internal/telegram/telegram.go
use mouse.Prelude.Int.{ℤ}
use mouse.Strings.{trim_space, trim_prefix, to_lower, Unicode}
use mouse.Prelude.{
  text_eq_iff, arith, ◌&&◌, not, true, ◌||◌, if◌then◌else◌, none, any, codes, ◌∷◌, false, [], ◌≡◌,
  some, Bool, ◌≢◌, Text, Option, List, text_eq,
}
use mouse.Strings.Decimal.{format_int-ne-nil, format_int}

pub record User : Type 0 where
  pub id : ℤ
  pub username : Text

pub record Chat : Type 0 where
  pub id : ℤ
  pub chat_type : Text

pub record Message : Type 0 where
  pub message_id : ℤ
  pub sender : Option User
  pub chat : Option Chat
  pub text : Text

pub record Update : Type 0 where
  pub update_id : ℤ
  pub message : Option Message

module _ ⦃u : Unicode⦄ where
  -- The name that an item of the allow list stands for.
  unfoldable pub item_name : Text → Text
  item_name allowed = to_lower (trim_prefix (trim_space allowed) (codes "@"))

  -- The name of a user that is compared with it.
  unfoldable pub user_name : User → Text
  user_name user = to_lower (trim_prefix user.username (codes "@"))

  -- The loop of `isAllowedUser`, over the user's two names.
  unfoldable pub any_match : Text → Text → List Text → Bool
  unfolding item_name text_eq
  any_match from_id username [] = false
  any_match from_id username (allowed ∷ rest) =
      let val = item_name allowed in
      let later = any_match from_id username rest in
      if text_eq val []
      then later
      else if text_eq val from_id || text_eq val username
      then true
      else later

  -- `isAllowedUser`; `none` is a nil user
  unfoldable pub is_allowed_user : List Text → Option User → Bool
  unfolding any_match user_name
  is_allowed_user allow none = false
  is_allowed_user allow (some user) = any_match (format_int user.id) (user_name user) allow

  -- `isAllowedUpdate`
  unfoldable pub is_allowed_update : List Text → Update → Bool
  unfolding is_allowed_user
  is_allowed_update allow update = elim update.message [
    | none ↦ false
    | some message ↦ is_allowed_user allow message.sender
  ]

  any_match_lem :
      (allow : List Text) (id name : Text)
      → id ≢ []
      → any_match id name allow ≡ (
          any (λ item. text_eq (item_name item) id) allow
          || (not (text_eq name []) && any (λ item. text_eq (item_name item) name) allow))
  unfolding any_match
  any_match_lem [] id name h = ground arith
  any_match_lem (item ∷ rest) id name h = ground (
    arith,
    any_match_lem rest id name h,
    text_eq_iff (item_name item) [],
    text_eq_iff (item_name item) id,
    text_eq_iff (item_name item) name,
    text_eq_iff name [],
  )

  -- What `isAllowedUser` decides, without its loop: an item of the allow list is the user's id, or
  -- is the user's name if that is not empty.
  pub is_allowed_user_lem :
      (allow : List Text) (user : User)
      → is_allowed_user allow (some user) ≡ (
          any (λ item. text_eq (item_name item) (format_int user.id)) allow
          || (not (text_eq (user_name user) [])
              && any (λ item. text_eq (item_name item) (user_name user)) allow))
  unfolding is_allowed_user
  is_allowed_user_lem allow user =
      any_match_lem allow (format_int user.id) (user_name user) (format_int-ne-nil user.id)
