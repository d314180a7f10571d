-- ===== src/ShareLink.antt =====
-- share_link.go: a new redemption token and the link that carries it. What `rand.Read` did and the
-- time of creation, formatted, are arguments.
pub mod Reading
pub mod Creation
use npvtunnel_creator_server.Base.{List, Text, text, ◌++◌, Option, none, some, if◌then◌else◌, ℤ}
use npvtunnel_creator_server.Base64.{encode_to_string}
use npvtunnel_creator_server.Challenge.{RandomRead}
use npvtunnel_creator_server.Tokens.{RedemptionToken}
use npvtunnel_creator_server.Tokens.Store.{
  Store, WriteResult, AddResult, added, add_redemption_token,
}

unfoldable pub join_share_link : Text → Text → Text
join_share_link redemption_url token =
    text "npvtunnel://join?u=" ++ encode_to_string redemption_url ++ text "&t=" ++ token

-- What the creator has chosen for a link.
pub record ShareRequest : Type 0 where
  pub config_ids : List Text
  pub redemption_url : Text
  pub redemptions : ℤ
  pub expires_at : Text
  pub label : Text

abbrev pub token_record : ShareRequest → Text → Text → RedemptionToken
token_record q token created_at = record {
  token = token;
  config_ids = q.config_ids;
  remaining_redemptions = q.redemptions;
  expires_at = q.expires_at;
  created_at = created_at;
  label = q.label;
}

abbrev pub after_add : ShareRequest → Text → Store × AddResult → Store × Option (Text × Text)
after_add q token (s, added) = (s, some (token, join_share_link q.redemption_url token))
after_add q token (s, _) = (s, none)

-- `newShareLink`: the token and its link, or an error.
unfoldable pub new_share_link :
    RandomRead → ShareRequest → Text → WriteResult → Store → Store × Option (Text × Text)
new_share_link random q created_at w s =
    if random.failed
    then (s, none)
    else (let token = encode_to_string random.buffer in
        after_add q token (add_redemption_token (token_record q token created_at) w s))
