-- ===== src/Catalog/Deliverables.antt =====
-- packages/catalog/src/deliverables.ts: the files of each product.
use ai_client_acquisition_os.Common.{ℕ, List, [], ◌∷◌, Option, String, find, ◌=ˢ◌, map, ◌++◌}
use ai_client_acquisition_os.Catalog.{
  ProductId, ai_income_99, ai_freelancing_499, ai_client_acquisition_1499,
}
use ai_client_acquisition_os.Catalog.Ladder.{product_ladder}

pub data AssetKind : Type 0 where
  pdf zip video sheet : AssetKind

pub record Deliverable : Type 0 where
  pub id : String
  pub title : String
  pub kind : AssetKind
  pub storage_key : String
  pub bytes : ℕ

unfoldable pub deliverables_for : ProductId → List Deliverable
deliverables_for ai_income_99 =
    record {
      id = "starter-prompt-library";
      title = "Prompt library: the ten highest-demand AI tasks";
      kind = pdf;
      storage_key = "ai_income_99/prompt-library.pdf";
      bytes = 2_400_000;
    }
    ∷ record {
      id = "starter-pricing-sheet";
      title = "Pricing sheet for first-time freelancers";
      kind = sheet;
      storage_key = "ai_income_99/pricing-sheet.xlsx";
      bytes = 48_000;
    }
    ∷ record {
      id = "starter-outreach-templates";
      title = "Two outreach templates that do not read as templates";
      kind = pdf;
      storage_key = "ai_income_99/outreach-templates.pdf";
      bytes = 310_000;
    }
    ∷ []
deliverables_for ai_freelancing_499 =
    record {
      id = "launch-outreach-system";
      title = "The outreach sequence, including the follow-ups most people skip";
      kind = pdf;
      storage_key = "ai_freelancing_499/outreach-system.pdf";
      bytes = 5_100_000;
    }
    ∷ record {
      id = "launch-scope-pricing";
      title = "Scope and pricing playbook for fixed-fee projects";
      kind = pdf;
      storage_key = "ai_freelancing_499/scope-and-pricing.pdf";
      bytes = 3_700_000;
    }
    ∷ record {
      id = "launch-proposal-template";
      title = "Proposal template that survives a procurement review";
      kind = zip;
      storage_key = "ai_freelancing_499/proposal-template.zip";
      bytes = 890_000;
    }
    ∷ []
deliverables_for ai_client_acquisition_1499 =
    record {
      id = "system-acquisition-funnel";
      title = "The acquisition funnel, end to end";
      kind = pdf;
      storage_key = "ai_client_acquisition_1499/acquisition-funnel.pdf";
      bytes = 9_200_000;
    }
    ∷ record {
      id = "system-delivery-workflow";
      title = "Delivery workflow and client handover checklists";
      kind = zip;
      storage_key = "ai_client_acquisition_1499/delivery-workflow.zip";
      bytes = 4_050_000;
    }
    ∷ record {
      id = "system-automation-recipes";
      title = "Automation recipes for follow-up, invoicing and reporting";
      kind = zip;
      storage_key = "ai_client_acquisition_1499/automation-recipes.zip";
      bytes = 6_600_000;
    }
    ∷ record {
      id = "system-walkthrough";
      title = "Full system walkthrough";
      kind = video;
      storage_key = "ai_client_acquisition_1499/walkthrough.mp4";
      bytes = 412_000_000;
    }
    ∷ []

unfoldable pub find_deliverable : ProductId → String → Option Deliverable
find_deliverable product asset_id =
    find (λ (d : Deliverable). d.id =ˢ asset_id) (deliverables_for product)

unfoldable pub all_deliverables : List (ProductId × Deliverable)
all_deliverables = flat product_ladder
  where
    flat : List ProductId → List (ProductId × Deliverable)
    flat [] = []
    flat (p ∷ ps) = map (λ d. (p, d)) (deliverables_for p) ++ flat ps
