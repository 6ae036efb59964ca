-- ===== src/Pentest/Skills.antt =====
-- The skills of the penetration tests, agent/pentest/skills_registry.py, without their texts for
-- readers (description, playbook, templates and guide).
use zerra.Prelude.{String, Option, none, some, List, [], ◌∷◌}
use zerra.Prelude.Dict.{Dict, lookup, values}

pub record PentestSkill : Type 0 where
  pub id : String
  pub name : String
  pub category : String
  pub owasp_id : String
  pub cwe : String

abbrev skill : String → String → String → String → String → String × PentestSkill
skill id name category owasp_id cwe =
    (id, record { id = id; name = name; category = category; owasp_id = owasp_id; cwe = cwe })

abbrev pub skills_database : Dict PentestSkill
skills_database =
    skill "api_bola_idor" "Broken Object Level Authorization (BOLA / IDOR)" "vulnerabilities"
      "API1:2023" "CWE-639"
    ∷ skill "api_broken_auth" "Broken Authentication & Token Flaws" "vulnerabilities" "API2:2023"
        "CWE-287"
    ∷ skill "api_bfla" "Broken Function Level Authorization (BFLA)" "vulnerabilities" "API5:2023"
        "CWE-285"
    ∷ skill "api_resource_exhaustion" "Unrestricted Resource Consumption & Rate Limiting"
        "vulnerabilities" "API4:2023" "CWE-770"
    ∷ skill "ssrf_and_cloud" "Server-Side Request Forgery & Cloud Metadata Probes" "vulnerabilities"
        "API7:2023" "CWE-918"
    ∷ skill "agentic_mcp_security" "Agentic System & Model Context Protocol (MCP) Security"
        "technologies" "LLM01-LLM10" "CWE-20"
    ∷ skill "injection_sql_nosql" "Injection (SQL, NoSQL, Expression)" "vulnerabilities" "API8:2023"
        "CWE-89"
    ∷ []

unfoldable pub get_skill : String → Option PentestSkill
get_skill skill_id = lookup skill_id skills_database

list_skills : List PentestSkill
list_skills = values skills_database

-- `get_skills_for_scan`.
get_skills_for_scan : List String → List PentestSkill
unfolding get_skill
get_skills_for_scan [] = []
get_skills_for_scan (skill_id ∷ rest) = elim (get_skill skill_id) [
  | none ↦ get_skills_for_scan rest
  | some found ↦ found ∷ get_skills_for_scan rest
]
