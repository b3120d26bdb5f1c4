-- ===== src/Grpc/WhitelistService/Tests.antt =====
-- Runs of the whitelist service, and its theorems there.
use aquatiq_root.Common.{arith, ℕ, Text, lit, ◌≡◌, refl, none, some, List, [], ◌∷◌}
use aquatiq_root.Whitelist.Types.{IpEntry}
use aquatiq_root.Whitelist.Operations.{sweep}
use aquatiq_root.Grpc.WhitelistService.{
  convert_to_proto_ip_entry, convert_all, live, ips, convert_all-sweep,
}
use aquatiq_root.Whitelist.Abstract.{lists}
use aquatiq_root.Whitelist.Sample.{one_range, at_five, writes_work, range, address, empty}
use aquatiq_root.Grpc.WhitelistService.Promise.{
  Serves, add_white, remove_white, get_white, ask, cleanup,
}
use aquatiq_root.Grpc.WhitelistService.Refinement.{serve_all, serve_all-Serves}

abbrev entry : Text → ℕ → IpEntry
entry ip t = record { ip = ip; description = []; added_at = 5; added_by = []; expires_at = some t }

abbrev two : List IpEntry
two = entry (lit "10.0.0.1") 7 ∷ entry (lit "10.0.0.2") 20 ∷ []

kept : live (convert_all (λ _. 9) 0 two).0 ≡ lit "10.0.0.2" ∷ []
unfolding convert_all convert_to_proto_ip_entry
kept = refl

convert_all-sweep_example : live (convert_all (λ _. 9) 0 two).0 ≡ ips (sweep 9 two none).0
convert_all-sweep_example = convert_all-sweep 9 0 two none

serve_all-Serves_example :
    let qs =
      add_white range [] [] (some 9)
      ∷ get_white
      ∷ ask address
      ∷ remove_white range
      ∷ cleanup
      ∷ [] in
    Serves
      (serve_all one_range at_five writes_work qs empty).0
      (lists empty)
      (lists (serve_all one_range at_five writes_work qs empty).1)
serve_all-Serves_example =
    serve_all-Serves one_range at_five writes_work (λ k. omega arith)
      (add_white range [] [] (some 9) ∷ get_white ∷ ask address ∷ remove_white range ∷ cleanup ∷ [])
      empty (record { white = tt; black = tt })
