-- ===== src/Frameworks/Catalog.antt =====
-- The catalog of src/frameworks.rs. A descriptor's text is its code points.
use canonical_api_server_rs.Prelude.{List, [], ◌∷◌, ◌++◌, Text, codes}

pub record FrameworkDescriptor : Type 0 where
  pub category : Text
  pub governing_body : Text
  pub id : Text
  pub source_url : Text
  pub summary : Text
  pub title : Text

-- CATALOG
unfoldable pub catalog : List FrameworkDescriptor
catalog =
    record {
      category = codes "security-program";
      governing_body = codes "Center for Internet Security";
      id = codes "cis-controls-8.1";
      source_url = codes "https://www.cisecurity.org/controls/v8-1";
      summary =
          codes "Prioritized safeguards for building and benchmarking a security program. "
          ++ codes "Canonical Plus maps readiness work to the safeguards ahead of any independent "
          ++ codes "assessment.";
      title = codes "CIS Critical Security Controls";
    }
    ∷ record {
      category = codes "assurance-target";
      governing_body = codes "U.S. Department of Defense";
      id = codes "cmmc-2.0";
      source_url = codes "https://dodcio.defense.gov/CMMC/";
      summary =
          codes "Defense industrial base maturity model assessed by authorized C3PAOs. "
          ++ codes "Canonical Plus prepares the CUI boundary and evidence for that independent "
          ++ codes "assessment.";
      title = codes "Cybersecurity Maturity Model Certification";
    }
    ∷ record {
      category = codes "assurance-target";
      governing_body = codes "Cloud Security Alliance";
      id = codes "csa-ccm";
      source_url = codes "https://cloudsecurityalliance.org/research/cloud-controls-matrix";
      summary =
          codes "Cloud control matrix behind the STAR assurance program. Canonical Plus "
          ++ codes "readies cloud control evidence for independent STAR review.";
      title = codes "CSA Cloud Controls Matrix and STAR";
    }
    ∷ record {
      category = codes "security-program";
      governing_body = codes "European Union";
      id = codes "dora-2022-2554";
      source_url = codes "https://eur-lex.europa.eu/eli/reg/2022/2554/oj";
      summary =
          codes "EU operational-resilience regulation for financial entities. Canonical Plus "
          ++ codes "prepares ICT risk, testing, and reporting practices for supervisory scrutiny.";
      title = codes "Digital Operational Resilience Act";
    }
    ∷ record {
      category = codes "assurance-target";
      governing_body = codes "U.S. General Services Administration";
      id = codes "fedramp-rev5";
      source_url = codes "https://www.fedramp.gov/documents-templates/";
      summary =
          codes "U.S. federal cloud authorization program assessed by independent 3PAOs. "
          ++ codes "Canonical Plus prepares the authorization boundary and package for that "
          ++ codes "assessment.";
      title = codes "Federal Risk and Authorization Management Program";
    }
    ∷ record {
      category = codes "privacy-regulation";
      governing_body = codes "European Union";
      id = codes "gdpr-2016-679";
      source_url = codes "https://eur-lex.europa.eu/eli/reg/2016/679/oj";
      summary =
          codes "EU data-protection regulation enforced by supervisory authorities. "
          ++ codes "Canonical Plus prepares processing records, lawful bases, and safeguards for "
          ++ codes "regulator review.";
      title = codes "General Data Protection Regulation";
    }
    ∷ record {
      category = codes "privacy-regulation";
      governing_body = codes "U.S. Department of Health and Human Services";
      id = codes "hipaa-security-rule";
      source_url = codes "https://www.hhs.gov/hipaa/for-professionals/security/index.html";
      summary =
          codes "U.S. health-information security regulation overseen by HHS OCR. Canonical "
          ++ codes
              "Plus prepares the required safeguards and documentation for independent review.";
      title = codes "HIPAA Security Rule";
    }
    ∷ record {
      category = codes "assurance-target";
      governing_body = codes "ISO";
      id = codes "iso-22301-2019";
      source_url = codes "https://www.iso.org/standard/75106.html";
      summary =
          codes "Business-continuity management standard certified by accredited bodies. "
          ++ codes "Canonical Plus prepares the continuity program for that independent "
          ++ codes "certification audit.";
      title = codes "ISO 22301 Business Continuity Management";
    }
    ∷ record {
      category = codes "assurance-target";
      governing_body = codes "ISO/IEC";
      id = codes "iso-iec-27001-2022";
      source_url = codes "https://www.iso.org/standard/27001";
      summary =
          codes "Information-security management system standard certified by accredited "
          ++ codes "bodies. Canonical Plus prepares the ISMS and evidence for that independent "
          ++ codes "certification audit.";
      title = codes "ISO/IEC 27001";
    }
    ∷ record {
      category = codes "assurance-target";
      governing_body = codes "ISO/IEC";
      id = codes "iso-iec-27701";
      source_url = codes "https://www.iso.org/standard/85819.html";
      summary =
          codes "Privacy information management extension to ISO/IEC 27001. Canonical Plus "
          ++ codes "prepares the privacy program for independent certification against it.";
      title = codes "ISO/IEC 27701 Privacy Information Management";
    }
    ∷ record {
      category = codes "security-program";
      governing_body = codes "European Union";
      id = codes "nis2-2022-2555";
      source_url = codes "https://eur-lex.europa.eu/eli/dir/2022/2555/oj";
      summary =
          codes "EU cybersecurity directive for essential and important entities. Canonical "
          ++ codes "Plus prepares governance, risk, and reporting practices for national-authority "
          ++ codes "oversight.";
      title = codes "NIS2 Directive";
    }
    ∷ record {
      category = codes "security-program";
      governing_body = codes "National Institute of Standards and Technology";
      id = codes "nist-csf-2.0";
      source_url = codes "https://www.nist.gov/cyberframework";
      summary =
          codes "Voluntary cybersecurity outcomes framework across six functions. Canonical "
          ++ codes "Plus uses it to structure readiness work ahead of any independent evaluation.";
      title = codes "NIST Cybersecurity Framework";
    }
    ∷ record {
      category = codes "security-program";
      governing_body = codes "National Institute of Standards and Technology";
      id = codes "nist-sp-800-53-5.2.0";
      source_url =
          codes "https://csrc.nist.gov/projects/risk-management/sp800-53-controls/release-search";
      summary =
          codes "Federal control catalog underpinning RMF authorizations. Canonical Plus "
          ++ codes "prepares control implementations and evidence for independent assessment.";
      title = codes "NIST SP 800-53 Control Catalog";
    }
    ∷ record {
      category = codes "assurance-target";
      governing_body = codes "PCI Security Standards Council";
      id = codes "pci-dss-4.0.1";
      source_url = codes "https://www.pcisecuritystandards.org/standards/pci-dss/";
      summary =
          codes "Payment-card security standard validated by QSAs or self-assessment. "
          ++ codes "Canonical Plus prepares cardholder-data controls for that independent "
          ++ codes "validation.";
      title = codes "Payment Card Industry Data Security Standard";
    }
    ∷ record {
      category = codes "assurance-target";
      governing_body = codes "AICPA";
      id = codes "soc2-tsc";
      source_url =
          codes
            "https://www.aicpa-cima.com/resources/landing/system-and-organization-controls-soc-suite-of-services";
      summary =
          codes "Trust Services Criteria examined by independent CPA firms in SOC 2 "
          ++ codes "reports. Canonical Plus prepares controls and evidence for that examination.";
      title = codes "SOC 2 Trust Services Criteria";
    }
    ∷ []
