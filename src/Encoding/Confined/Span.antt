-- ===== src/Encoding/Confined/Span.antt =====
-- What confinement means for one run of a decoder.
use muc_opcua.Common.{ℕ, ◌≤◌, ◌≡◌, refl, List, some}
use muc_opcua.Encoding.Reader.{Reader}
use muc_opcua.Encoding.NodeIds.{read_nodeid, read_expanded_nodeid}
use muc_opcua.Encoding.Composite.{read_username_identity_token, read_eu_information}
use muc_opcua.Encoding.Extension.{skip_extension_object}
use muc_opcua.Encoding.Confined.{Agree, Twin, Same}
use muc_opcua.Encoding.Confined.Composites.{
  Ok-eu_information, Ok-username_identity_token, Ok-skip_extension_object,
}
use muc_opcua.Encoding.Confined.Decoders.{Ok-nodeid, Ok-expanded_nodeid}

abbrev pub swap : Reader → List ℕ → Reader
swap r others = record r { buffer = some others }

pub swap-Twin :
    (r : Reader) (bytes others : List ℕ)
    → r.buffer ≡ some bytes
    → r.position ≤ r.length
    → Twin r.length bytes others r (swap r others)
swap-Twin r bytes others e inside = record {
  left = e;
  right = refl;
  left_span = refl;
  right_span = refl;
  same_position = refl;
  same_status = refl;
  inside = inside;
}

-- For any bytes in the buffer, well formed or hostile: the decoder of NodeIds, of ExpandedNodeIds, of
-- EUInformation, of username tokens and the skipping of an ExtensionObject give the same result
-- over another buffer that agrees below the reader's length, so they read nothing behind it; and
-- the reader that they leave has its length and a position within it.
pub decoders_confined :
    (r : Reader) (bytes others : List ℕ)
    → r.buffer ≡ some bytes
    → r.position ≤ r.length
    → Agree r.length bytes others
    → Same r.length bytes others (read_nodeid r) (read_nodeid (swap r others))
      × Same r.length bytes others (read_expanded_nodeid r) (read_expanded_nodeid (swap r others))
      × Same r.length bytes others (read_eu_information r) (read_eu_information (swap r others))
      × Same r.length bytes others
          (read_username_identity_token r)
          (read_username_identity_token (swap r others))
      × Same r.length bytes others (skip_extension_object r) (skip_extension_object (swap r others))
decoders_confined r bytes others e inside agree = (
  (Ok-nodeid r.length bytes others agree).apply r (swap r others)
      (swap-Twin r bytes others e inside),
  (Ok-expanded_nodeid r.length bytes others agree).apply r (swap r others)
      (swap-Twin r bytes others e inside),
  (Ok-eu_information r.length bytes others agree).apply r (swap r others)
      (swap-Twin r bytes others e inside),
  (Ok-username_identity_token r.length bytes others agree).apply r (swap r others)
      (swap-Twin r bytes others e inside),
  (Ok-skip_extension_object r.length bytes others agree).apply r (swap r others)
      (swap-Twin r bytes others e inside),
)
