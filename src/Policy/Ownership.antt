-- ===== src/Policy/Ownership.antt =====
-- Ownership markers and `decideOwnership` of internal/controller/role_policy.go. The digests of the
-- standard library's `crypto` are parameters: `key_id` of the key, and `mac` of key and text.
pub mod Laws
use pgop.Prelude.{
  ℕ, Bool, true, false, not, ◌&&◌, ◌||◌, List, [], ◌∷◌, ◌++◌, Eq, ◌==◌, if◌then◌else◌, Option, none,
  some, is_empty,
}
use pgop.Text.{Text, text_eq, text}
use pgop.Text.Strings.{cut_prefix, cut}

pub record MarkerSigner : Type 0 where
  pub key : Text
  pub namespace : Text
  pub cluster : Text

pub data Ownership : Type 0 where
  owned_absent owned owned_remark adoptable not_owned : Ownership

-- markerV1Prefix + kind + "/" + name
unfoldable pub legacy_marker : Text → Text → Text
legacy_marker kind name = text "pgop:v1:" ++ (kind ++ (b'/' ∷ name))

module _ (key_id : Text → Text) (mac : Text → Text → Text) where
  -- What a marker of the kind and name begins with.
  unfoldable pub marker_head : Text → Text → Text
  marker_head kind name = text "pgop:v2:" ++ (kind ++ (b'/' ∷ (name ++ b':' ∷ [])))

  unfoldable pub marker : MarkerSigner → Text → Text → Text
  unfolding marker_head
  marker s kind name =
      marker_head kind name
      ++ (key_id s.key
          ++ (b'.'
              ∷ mac s.key
                  (kind ++ (b'|' ∷ (s.namespace ++ (b'|' ∷ (s.cluster ++ (b'|' ∷ name))))))))

  -- The key ID that stands before the first dot differs from the signer's.
  abbrev pub other_id : MarkerSigner → Option (Text × Text) → Bool
  other_id s none = false
  other_id s (some (id, _)) = not (id == key_id s.key)

  abbrev pub other_key : MarkerSigner → Option Text → Bool
  other_key s none = false
  other_key s (some rest) = other_id s (cut rest b'.')

  unfoldable pub other_key_marker : MarkerSigner → Text → Text → Text → Bool
  unfolding marker_head
  other_key_marker s comment kind name = other_key s (cut_prefix comment (marker_head kind name))

  unfoldable pub verify : MarkerSigner → Text → Text → Text → Bool
  verify s comment kind name = not (is_empty s.key) && comment == marker s kind name

  unfoldable pub refreshable_comment : MarkerSigner → Text → Text → Text → Bool
  refreshable_comment s comment kind name =
      is_empty comment || comment == legacy_marker kind name || other_key_marker s comment kind name

  unfoldable pub decide_ownership :
      MarkerSigner → Text → Text → Bool → Text → Bool → Bool → Ownership
  decide_ownership s kind name exists comment recorded allowlisted =
      if not exists
      then owned_absent
      else if recorded && verify s comment kind name
      then owned
      else if recorded && refreshable_comment s comment kind name
      then owned_remark
      else if allowlisted
      then adoptable
      else not_owned
