-- ===== src/Server/Grpc/Tests.antt =====
-- The theorems on the gRPC service at concrete messages.
use aiss_waf_server.Prelude.{ℕ, ◌≡◌, refl, true, not, some, [], ◌∷◌, is_empty}
use aiss_waf_server.Server.Grpc.{Row, since_of, selected, get_cve_updates}
use aiss_waf_server.Server.Grpc.Stalled.{all_hex, get_cve_updates-stalled}

abbrev row : Row ℕ
row = record {
  sig = record {
    id = b'a' ∷ b'7' ∷ b'-' ∷ b'f' ∷ [];
    cve_id = 1 ∷ [];
    pattern = 2 ∷ [];
    severity = [];
    cvss = 9;
    affected_product = [];
    active = true;
    modified_at = 20;
  };
  name = [];
  flags = [];
}

get_cve_updates-stalled_example :
    get_cve_updates (λ t. []) (λ m. true) (λ t. some 10) [] (row ∷ []) ≡ record {
      sent = [];
      failed = not (is_empty (selected (since_of (λ t. some 10) []) (row ∷ [])));
    }
get_cve_updates-stalled_example =
    get_cve_updates-stalled (λ t. []) (λ m. true) (λ t. some 10) [] (row ∷ [])
      (
        record {
          first = b'a';
          digits = b'7' ∷ [];
          rest = b'f' ∷ [];
          hex = unfold all_hex in refl;
          whole = refl;
        },
        tt,
      )

-- The row is due, so that the stream fails.
due : selected (since_of (λ t. some 10) []) (row ∷ []) ≡ row ∷ []
unfolding selected since_of
due = refl
